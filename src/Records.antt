-- ===== src/Records.antt =====
-- src/domain.ts: the rows of the control plane's data set, and what `resolve` takes and returns.
use z_s_app.Prelude.{ℕ, String, Bool, Option, List}
use z_s_app.Domain.{
  Environment, ActiveStatus, ProfileStatus, ProviderType, ProviderRole, OperationClass, Capability,
  CapabilityResultState,
}

pub record ManagedAppEnvironment : Type 0 where
  pub app_id : String
  pub environment : Environment
  pub status : ActiveStatus

pub record StorageProviderRecord : Type 0 where
  pub provider_id : String
  pub provider_type : ProviderType
  pub status : ActiveStatus
  pub secret_reference_id : String

pub record StorageProfileRecord : Type 0 where
  pub profile_id : String
  pub app_id : String
  pub environment : Environment
  pub version : ℕ
  pub status : ProfileStatus

pub record StorageProfileProviderBinding : Type 0 where
  pub profile_id : String
  pub profile_version : ℕ
  pub provider_role : ProviderRole
  pub provider_id : String
  pub bucket_label : String
  pub required : Bool

pub record StoragePrefixClass : Type 0 where
  pub prefix_class_id : String
  pub profile_id : String
  pub profile_version : ℕ
  pub operation_class : OperationClass
  pub normalized_prefix_pattern : String
  pub status : ActiveStatus

pub record StorageCapabilityResult : Type 0 where
  pub capability_run_id : String
  pub profile_id : String
  pub profile_version : ℕ
  pub provider_id : String
  pub bucket_label : String
  pub prefix_class_id : String
  pub capability : Capability
  pub result : CapabilityResultState
  pub verified_at : ℕ
  pub expires_at : Option ℕ
  pub safe_evidence_ref : Option String

pub data HeadContentLength : Type 0 where
  required optional_with_checksum : HeadContentLength

pub data RangeRead : Type 0 where
  required optional not_applicable : RangeRead

-- `checksumVerification` and `sizeVerification` have one value each in the source's type.
pub record ProviderCapabilityPolicy : Type 0 where
  pub head_content_length : HeadContentLength
  pub range_read : RangeRead

pub record SafeProviderAssignment : Type 0 where
  pub provider_id : String
  pub bucket_label : String

pub record ResolvedStorageProfileAssignment : Type 0 where
  pub app_id : String
  pub environment : Environment
  pub profile_id : String
  pub profile_version : ℕ
  pub hot_provider : Option SafeProviderAssignment
  pub canonical_provider : SafeProviderAssignment
  pub prefix_class_id : String
  pub normalized_prefix_pattern : String
  pub capability_policy : ProviderCapabilityPolicy
  pub safe_fingerprint : String

-- `undefined` is `none`; an explicit `null` of the hot fields is `some none`.
pub record ProviderConfigurationExpectation : Type 0 where
  pub hot_provider_id : Option (Option String)
  pub hot_bucket : Option (Option String)
  pub canonical_provider_id : Option String
  pub canonical_bucket : Option String
  pub normalized_prefix_pattern : Option String

pub record ResolveStorageProfileInput : Type 0 where
  pub app_id : String
  pub environment : Environment
  pub profile_id : String
  pub operation_class : OperationClass
  pub object_key : Option String
  pub expected_configuration : Option ProviderConfigurationExpectation

pub record CapabilityReadinessInput : Type 0 where
  pub profile_id : String
  pub profile_version : ℕ
  pub prefix_class_id : String
  pub bindings : List StorageProfileProviderBinding

pub data Acceptance : Type 0 where
  passed passed_or_not_supported : Acceptance

pub record RequiredCapability : Type 0 where
  pub provider_role : ProviderRole
  pub capability : Capability
  pub acceptance : Acceptance

pub record ControlPlaneDataSet : Type 0 where
  pub managed_apps : List ManagedAppEnvironment
  pub providers : List StorageProviderRecord
  pub profiles : List StorageProfileRecord
  pub bindings : List StorageProfileProviderBinding
  pub prefix_classes : List StoragePrefixClass
  pub capability_results : List StorageCapabilityResult
