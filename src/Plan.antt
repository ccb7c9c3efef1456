-- ===== src/Plan.antt =====
-- src/storage-control-plan.ts: the values that are read and the plan that is built. A text is the list
-- of its code points.
pub mod Parse
pub mod Build
use z_s_app.Prelude.{
  ℕ, String, Bool, true, false, Option, none, some, List, [], ◌∷◌, if◌then◌else◌, codes,
}
use z_s_app.Config.Document.{JsNumber}
use z_s_app.Prefix.{codes_beq}

-- A value of the engine. `missing` is `undefined`; a value of another type is `other`.
mutual
  pub data Properties : Type 0 where
    no_properties : Properties
    property : String → Value → Properties → Properties

  pub data Elements : Type 0 where
    no_elements : Elements
    element : Value → Elements → Elements

  pub data Value : Type 0 where
    object : Properties → Value
    array : Elements → Value
    text : List ℕ → Value
    number : JsNumber → Value
    boolean : Bool → Value
    missing null other : Value

pub data ProviderType : Type 0 where
  minio r2 s3_compatible : ProviderType

pub data VaultRole : Type 0 where
  canonical hot derivative : VaultRole

pub data RetentionPolicy : Type 0 where
  permanent hot_cache_short custom : RetentionPolicy

pub data PlanAssetClass : Type 0 where
  raw_image raw_video image_derivative document : PlanAssetClass

pub data ImageFormat : Type 0 where
  webp avif jpeg png : ImageFormat

pub record VaultPlan : Type 0 where
  pub vault_id : List ℕ
  pub drive_label : List ℕ
  pub provider_type : ProviderType
  pub bucket_label : List ℕ
  pub secret_reference_id : List ℕ
  pub retention_policy : RetentionPolicy
  pub delete_after_days : Option ℕ
  pub role : VaultRole

pub record RoutePlan : Type 0 where
  pub asset_class : PlanAssetClass
  pub primary_vault_id : List ℕ
  pub replica_vault_id : Option (List ℕ)
  pub derivative_vault_id : Option (List ℕ)

pub record ImageDerivativePlan : Type 0 where
  pub derivative_id : List ℕ
  pub source_vault_id : List ℕ
  pub target_vault_id : List ℕ
  pub widths : List ℕ
  pub format : ImageFormat

pub record StorageControlPlan : Type 0 where
  pub client_id : List ℕ
  pub token_purpose : List ℕ
  pub vaults : List VaultPlan
  pub routes : List RoutePlan
  pub image_derivatives : List ImageDerivativePlan

-- the codes of StorageControlPlanError; `invalid` carries the key
pub data PlanError : Type 0 where
  invalid : String → PlanError
  duplicate_vault unknown_vault : PlanError

-- the name of one of several constants
abbrev pub named {ℓ} : {A : Type ℓ} → List (String × A) → List ℕ → Option A
named [] s = none
named ((name, v) ∷ rest) s = if codes_beq (codes name) s then some v else named rest s
