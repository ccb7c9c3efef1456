-- ===== src/Services.antt =====
-- src/storage-service.ts and src/storage-service-memory.ts: the storage services of a client.
-- A time is in milliseconds.
pub mod Repository
use z_s_app.Prelude.{
  ℕ, ◌+◌, String, Bool, true, false, ◌&&◌, ◌||◌, not, Option, none, some, List, [], ◌∷◌, ◌++◌, any,
  codes, if◌then◌else◌, ◌==◌,
}
use z_s_app.Config.Document.{
  ClientStorageEnvironment, Json, TargetRole, Retention, permanent, delete_after_days,
  target_role_eq,
}
use z_s_app.Config.State.{ConfigurationVersionSnapshot}
use z_s_app.Config.Text.{includes_text}

pub data StorageServiceStatus : Type 0 where
  setup_incomplete validating ready degraded auth_failed : StorageServiceStatus
  unreachable misconfigured disabled archived : StorageServiceStatus

pub data StorageServiceOwnership : Type 0 where
  z_s_managed client_owned : StorageServiceOwnership

pub data LastTestStatus : Type 0 where
  never passed failed : LastTestStatus

-- the keys of `StorageServiceCapabilities`
pub data CapabilityKey : Type 0 where
  object_write object_read object_head range_read object_delete : CapabilityKey
  copy_verification replica_target derivative_output_target retention_delete_target : CapabilityKey

abbrev pub StorageServiceCapabilities : Type 0
StorageServiceCapabilities = CapabilityKey → Bool

pub record StorageServiceSnapshot : Type 0 where
  pub id : String
  pub service_id : String
  pub client_id : String
  pub environment : ClientStorageEnvironment
  pub display_name : String
  pub provider_type : String
  pub ownership : StorageServiceOwnership
  pub managed_secret_reference_id : Option String
  pub status : StorageServiceStatus
  pub safe_metadata : Json
  pub capabilities : StorageServiceCapabilities
  pub last_test_status : LastTestStatus
  pub last_tested_at : Option String
  pub last_diagnostic_code : Option String
  pub created_at : ℕ
  pub updated_at : ℕ

pub record StorageServiceDependencySnapshot : Type 0 where
  pub draft_configuration_count : ℕ
  pub active_configuration_count : ℕ
  pub vault_count : ℕ
  pub route_count : ℕ
  pub object_copy_count : ℕ
  pub derivative_output_count : ℕ

pub record StorageServiceActivityEvent : Type 0 where
  pub id : String
  pub event_type : String
  pub safe_summary : Json
  pub created_at : ℕ

pub record StorageServiceListFilter : Type 0 where
  pub environment : Option ClientStorageEnvironment
  pub provider_type : Option String
  pub ownership : Option StorageServiceOwnership
  pub status : Option StorageServiceStatus

pub record StorageServiceError : Type 0 where
  pub status : ℕ
  pub code : String

abbrev includes : String → String → Bool
includes part text = includes_text (codes part) (codes text)

abbrev diagnostic_of : Option String → String
diagnostic_of none = ""
diagnostic_of (some code) = code

abbrev status_of_diagnostic : String → StorageServiceStatus
status_of_diagnostic d =
    if includes "authentication" d || includes "authorization" d
    then StorageServiceStatus.auth_failed
    else if includes "unreachable" d
        || includes "temporarily-unavailable" d
        || includes "timeout" d
        || includes "network" d
    then StorageServiceStatus.unreachable
    else if includes "invalid" d
        || includes "target-unavailable" d
        || includes "bucket" d
        || includes "prefix" d
    then StorageServiceStatus.misconfigured
    else StorageServiceStatus.degraded

unfoldable pub storage_service_status_for_test : Bool → Option String → StorageServiceStatus
storage_service_status_for_test connected diagnostic_code =
    if connected
    then StorageServiceStatus.ready
    else status_of_diagnostic (diagnostic_of diagnostic_code)

abbrev pub has_replica : ConfigurationVersionSnapshot → Bool
has_replica v = any (λ r. any (λ t. t.role == TargetRole.replica) r.targets) v.document.routes

abbrev pub is_some_preset {ℓ} : {A : Type ℓ} → List A → Bool
is_some_preset [] = false
is_some_preset (p ∷ l) = true

abbrev pub is_limited : Retention → Bool
is_limited permanent = false
is_limited (delete_after_days n) = true

abbrev pub only_if {ℓ} : {A : Type ℓ} → Bool → List A → List A
only_if b l = if b then l else []

unfoldable pub required_storage_service_capabilities :
    ConfigurationVersionSnapshot → List CapabilityKey
required_storage_service_capabilities v =
    (object_write ∷ object_read ∷ object_head ∷ range_read ∷ copy_verification ∷ [])
    ++ (only_if (has_replica v) (replica_target ∷ [])
        ++ (only_if (is_some_preset v.document.image_presets) (derivative_output_target ∷ [])
            ++ only_if (any (λ w. is_limited w.retention) v.document.vaults)
                (object_delete ∷ retention_delete_target ∷ [])))
