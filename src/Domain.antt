-- ===== src/Domain.antt =====
-- src/domain.ts, src/errors.ts: the records of the control plane and the codes that it throws.
-- A time is the number of milliseconds that `Date.parse` reads from the record's ISO text.
use z_s_app.Prelude.{ℕ, ◌≡◌, ◌↔◌, true, arith, nat_beq, Comparable, eq_by_tag}

pub data Environment : Type 0 where
  dev stg staging prod : Environment

pub data ActiveStatus : Type 0 where
  active disabled : ActiveStatus

pub data ProfileStatus : Type 0 where
  draft active disabled : ProfileStatus

pub data ProviderType : Type 0 where
  minio r2 s3_compatible : ProviderType

pub data ProviderRole : Type 0 where
  hot canonical : ProviderRole

pub data OperationClass : Type 0 where
  user_upload generated_asset private_document capability_probe : OperationClass

pub data Capability : Type 0 where
  put head get delete checksum size range : Capability

pub data CapabilityResultState : Type 0 where
  passed failed not_supported : CapabilityResultState

pub data ControlPlaneErrorCode : Type 0 where
  managed_app_not_found managed_app_disabled : ControlPlaneErrorCode
  profile_not_found profile_not_active profile_app_mismatch : ControlPlaneErrorCode
  profile_version_ambiguous provider_binding_missing : ControlPlaneErrorCode
  provider_binding_ambiguous provider_not_found provider_disabled : ControlPlaneErrorCode
  prefix_class_not_found prefix_class_ambiguous : ControlPlaneErrorCode
  object_key_outside_prefix capability_not_verified : ControlPlaneErrorCode
  capability_failed capability_expired configuration_conflict : ControlPlaneErrorCode

abbrev pub environment_tag : Environment → ℕ
environment_tag Environment.dev = 0
environment_tag Environment.stg = 1
environment_tag Environment.staging = 2
environment_tag Environment.prod = 3

pub environment_tag_iff :
    (a b : Environment) → (nat_beq (environment_tag a) (environment_tag b) ≡ true) ↔ (a ≡ b)
environment_tag_iff a b = ground arith

instance abbrev pub environment_eq : Comparable Environment
environment_eq = eq_by_tag environment_tag environment_tag_iff

abbrev pub active_status_tag : ActiveStatus → ℕ
active_status_tag ActiveStatus.active = 0
active_status_tag ActiveStatus.disabled = 1

pub active_status_tag_iff :
    (a b : ActiveStatus) → (nat_beq (active_status_tag a) (active_status_tag b) ≡ true) ↔ (a ≡ b)
active_status_tag_iff a b = ground arith

instance abbrev pub active_status_eq : Comparable ActiveStatus
active_status_eq = eq_by_tag active_status_tag active_status_tag_iff

abbrev pub profile_status_tag : ProfileStatus → ℕ
profile_status_tag ProfileStatus.draft = 0
profile_status_tag ProfileStatus.active = 1
profile_status_tag ProfileStatus.disabled = 2

pub profile_status_tag_iff :
    (a b : ProfileStatus) → (nat_beq (profile_status_tag a) (profile_status_tag b) ≡ true) ↔ (a ≡ b)
profile_status_tag_iff a b = ground arith

instance abbrev pub profile_status_eq : Comparable ProfileStatus
profile_status_eq = eq_by_tag profile_status_tag profile_status_tag_iff

abbrev pub provider_role_tag : ProviderRole → ℕ
provider_role_tag ProviderRole.hot = 0
provider_role_tag ProviderRole.canonical = 1

pub provider_role_tag_iff :
    (a b : ProviderRole) → (nat_beq (provider_role_tag a) (provider_role_tag b) ≡ true) ↔ (a ≡ b)
provider_role_tag_iff a b = ground arith

instance abbrev pub provider_role_eq : Comparable ProviderRole
provider_role_eq = eq_by_tag provider_role_tag provider_role_tag_iff

abbrev pub operation_class_tag : OperationClass → ℕ
operation_class_tag OperationClass.user_upload = 0
operation_class_tag OperationClass.generated_asset = 1
operation_class_tag OperationClass.private_document = 2
operation_class_tag OperationClass.capability_probe = 3

pub operation_class_tag_iff :
    (a b : OperationClass)
    → (nat_beq (operation_class_tag a) (operation_class_tag b) ≡ true) ↔ (a ≡ b)
operation_class_tag_iff a b = ground arith

instance abbrev pub operation_class_eq : Comparable OperationClass
operation_class_eq = eq_by_tag operation_class_tag operation_class_tag_iff

abbrev pub capability_tag : Capability → ℕ
capability_tag Capability.put = 0
capability_tag Capability.head = 1
capability_tag Capability.get = 2
capability_tag Capability.delete = 3
capability_tag Capability.checksum = 4
capability_tag Capability.size = 5
capability_tag Capability.range = 6

pub capability_tag_iff :
    (a b : Capability) → (nat_beq (capability_tag a) (capability_tag b) ≡ true) ↔ (a ≡ b)
capability_tag_iff a b = ground arith

instance abbrev pub capability_eq : Comparable Capability
capability_eq = eq_by_tag capability_tag capability_tag_iff

abbrev pub capability_result_state_tag : CapabilityResultState → ℕ
capability_result_state_tag CapabilityResultState.passed = 0
capability_result_state_tag CapabilityResultState.failed = 1
capability_result_state_tag CapabilityResultState.not_supported = 2

pub capability_result_state_tag_iff :
    (a b : CapabilityResultState)
    → (nat_beq (capability_result_state_tag a) (capability_result_state_tag b) ≡ true) ↔ (a ≡ b)
capability_result_state_tag_iff a b = ground arith

instance abbrev pub capability_result_state_eq : Comparable CapabilityResultState
capability_result_state_eq = eq_by_tag capability_result_state_tag capability_result_state_tag_iff
