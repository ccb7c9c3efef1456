-- ===== src/Config/Document.antt =====
-- src/client-storage-configuration.ts: the parts of a configuration. A time is in milliseconds.
use z_s_app.Prelude.{
  ℕ, ◌≡◌, ◌↔◌, true, String, Bool, false, Option, List, arith, nat_beq, Comparable, eq_by_tag,
  string_eq, ◌==◌,
}

pub data ClientStorageEnvironment : Type 0 where
  dev staging prod : ClientStorageEnvironment

pub data IntegrationTokenScope : Type 0 where
  write read manage : IntegrationTokenScope

pub data ConfigurationVersionState : Type 0 where
  draft active superseded : ConfigurationVersionState

pub data ConfigurationValidationState : Type 0 where
  unvalidated valid invalid : ConfigurationValidationState

pub data TargetRole : Type 0 where
  primary replica : TargetRole

pub data AssetClass : Type 0 where
  image video document : AssetClass

-- A number of the source: a natural number below 2 ^ 53, or any other with the text that it prints.
pub data JsNumber : Type 0 where
  natural : ℕ → JsNumber
  other : String → JsNumber

-- JSON values; a number is the text that `JSON.stringify` prints for it.
mutual
  pub data Json : Type 0 where
    null : Json
    boolean : Bool → Json
    number : String → Json
    text : String → Json
    array : JsonItems → Json
    object : JsonFields → Json

  pub data JsonItems : Type 0 where
    end : JsonItems
    item : Json → JsonItems → JsonItems

  pub data JsonFields : Type 0 where
    last : JsonFields
    field : String → Json → JsonFields → JsonFields

pub data Retention : Type 0 where
  permanent : Retention
  delete_after_days : JsNumber → Retention

pub data ConnectionProviderType : Type 0 where
  minio r2 s3_compatible : ConnectionProviderType

pub data VaultPurpose : Type 0 where
  originals hot_copy derivatives archive custom : VaultPurpose

pub data OutputFormat : Type 0 where
  webp avif jpeg png : OutputFormat

pub data Fit : Type 0 where
  inside cover contain fill : Fit

pub record ProviderConnectionInput : Type 0 where
  pub connection_id : String
  pub display_label : String
  pub provider_type : ConnectionProviderType
  pub secret_reference_id : String
  pub safe_metadata : Option Json

pub record ConfigurationVaultInput : Type 0 where
  pub vault_id : String
  pub provider_connection_id : String
  pub display_label : String
  pub purpose : VaultPurpose
  pub bucket_label : String
  pub prefix_template : String
  pub retention : Retention

pub record ConfigurationRouteTargetInput : Type 0 where
  pub role : TargetRole
  pub vault_id : String

pub record ConfigurationRouteInput : Type 0 where
  pub route_id : String
  pub asset_class : AssetClass
  pub targets : List ConfigurationRouteTargetInput
  pub image_preset_id : Option String

pub record ConfigurationImagePresetInput : Type 0 where
  pub preset_id : String
  pub target_vault_id : String
  pub widths : List JsNumber
  pub output_format : OutputFormat
  pub quality : JsNumber
  pub fit : Fit

pub record ConfigurationDraftDocument : Type 0 where
  pub provider_connections : List ProviderConnectionInput
  pub vaults : List ConfigurationVaultInput
  pub routes : List ConfigurationRouteInput
  pub image_presets : List ConfigurationImagePresetInput

abbrev pub client_environment_tag : ClientStorageEnvironment → ℕ
client_environment_tag ClientStorageEnvironment.dev = 0
client_environment_tag ClientStorageEnvironment.staging = 1
client_environment_tag ClientStorageEnvironment.prod = 2

pub client_environment_tag_iff :
    (a b : ClientStorageEnvironment)
    → (nat_beq (client_environment_tag a) (client_environment_tag b) ≡ true) ↔ (a ≡ b)
client_environment_tag_iff a b = ground arith

instance abbrev pub client_environment_eq : Comparable ClientStorageEnvironment
client_environment_eq = eq_by_tag client_environment_tag client_environment_tag_iff

abbrev pub token_scope_tag : IntegrationTokenScope → ℕ
token_scope_tag IntegrationTokenScope.write = 0
token_scope_tag IntegrationTokenScope.read = 1
token_scope_tag IntegrationTokenScope.manage = 2

pub token_scope_tag_iff :
    (a b : IntegrationTokenScope)
    → (nat_beq (token_scope_tag a) (token_scope_tag b) ≡ true) ↔ (a ≡ b)
token_scope_tag_iff a b = ground arith

instance abbrev pub token_scope_eq : Comparable IntegrationTokenScope
token_scope_eq = eq_by_tag token_scope_tag token_scope_tag_iff

abbrev pub version_state_tag : ConfigurationVersionState → ℕ
version_state_tag ConfigurationVersionState.draft = 0
version_state_tag ConfigurationVersionState.active = 1
version_state_tag ConfigurationVersionState.superseded = 2

pub version_state_tag_iff :
    (a b : ConfigurationVersionState)
    → (nat_beq (version_state_tag a) (version_state_tag b) ≡ true) ↔ (a ≡ b)
version_state_tag_iff a b = ground arith

instance abbrev pub version_state_eq : Comparable ConfigurationVersionState
version_state_eq = eq_by_tag version_state_tag version_state_tag_iff

abbrev pub target_role_tag : TargetRole → ℕ
target_role_tag TargetRole.primary = 0
target_role_tag TargetRole.replica = 1

pub target_role_tag_iff :
    (a b : TargetRole) → (nat_beq (target_role_tag a) (target_role_tag b) ≡ true) ↔ (a ≡ b)
target_role_tag_iff a b = ground arith

instance abbrev pub target_role_eq : Comparable TargetRole
target_role_eq = eq_by_tag target_role_tag target_role_tag_iff

abbrev pub asset_class_tag : AssetClass → ℕ
asset_class_tag AssetClass.image = 0
asset_class_tag AssetClass.video = 1
asset_class_tag AssetClass.document = 2

pub asset_class_tag_iff :
    (a b : AssetClass) → (nat_beq (asset_class_tag a) (asset_class_tag b) ≡ true) ↔ (a ≡ b)
asset_class_tag_iff a b = ground arith

instance abbrev pub asset_class_eq : Comparable AssetClass
asset_class_eq = eq_by_tag asset_class_tag asset_class_tag_iff

abbrev pub number_beq : JsNumber → JsNumber → Bool
number_beq (natural n) (natural m) = nat_beq n m
number_beq (other s) (other t) = s == t
number_beq _ _ = false
