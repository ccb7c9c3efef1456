-- ===== src/Profile.antt =====
-- src/profile-registry.ts, src/fingerprint.ts: the resolution of a storage profile.
-- `payload_digest` is the SHA-256 in hexadecimal of the payload's JSON text, which Node computes.
pub mod Selection
pub mod Resolution
use Prim.Native.String.{◌++◌ as text_append}
use mathlib.Core.Option
use mathlib.Core.List.{flat_map}
use z_s_app.Prelude.{
  ℕ, zero, suc, ◌+◌, String, Bool, true, false, ◌&&◌, ◌||◌, not, Option, none, some, List, [], ◌∷◌,
  ◌++◌, map, ◌==◌, nat_eq, string_eq, option_eq, if◌then◌else◌, filter, find, any, Result, ok, err,
  ◌>>=◌, ◌>>◌, fail_if,
}
use z_s_app.Domain
use z_s_app.Domain.{
  Environment, ActiveStatus, ProfileStatus, ProviderRole, hot, canonical, OperationClass,
  Capability, ControlPlaneErrorCode, managed_app_not_found, managed_app_disabled, profile_not_found,
  profile_not_active, profile_app_mismatch, profile_version_ambiguous, provider_binding_missing,
  provider_binding_ambiguous, provider_not_found, provider_disabled, configuration_conflict,
  environment_eq, active_status_eq, profile_status_eq, provider_role_eq,
}
use z_s_app.Records.{
  ManagedAppEnvironment, StorageProviderRecord, StorageProfileRecord, StorageProfileProviderBinding,
  StoragePrefixClass, SafeProviderAssignment, ResolvedStorageProfileAssignment,
  ProviderConfigurationExpectation, ResolveStorageProfileInput, Acceptance, RequiredCapability,
  ControlPlaneDataSet,
}
use z_s_app.Prefix.{find_active_prefix_class, assert_object_key_allowed}
use z_s_app.Capability.{assert_ready, strict_required_capabilities}

abbrev Answer : Type 0 → Type 0
Answer A = Result ControlPlaneErrorCode A

-- `[...new Set(list)]`
pub distinct : List ProviderRole → List ProviderRole → List ProviderRole
distinct seen [] = []
distinct seen (r ∷ rest) = elim (any (λ s. s == r) seen) [
  | true ↦ distinct seen rest
  | false ↦ r ∷ distinct (r ∷ seen) rest
]

unfoldable pub required_roles :
    OperationClass → List StorageProfileProviderBinding → List ProviderRole
unfolding distinct
required_roles OperationClass.private_document bindings = canonical ∷ []
required_roles OperationClass.capability_probe bindings =
    distinct [] (canonical ∷ map (λ b. b.provider_role) (filter (λ b. b.required) bindings))
required_roles OperationClass.user_upload bindings = hot ∷ canonical ∷ []
required_roles OperationClass.generated_asset bindings = hot ∷ canonical ∷ []

-- an expectation that is given and differs
abbrev differs {ℓ} : {A : Type ℓ} → (A → A → Bool) → Option A → A → Bool
differs same none value = false
differs same (some expected) value = not (same expected value)

pub conflicts :
    ProviderConfigurationExpectation
    → Option StorageProfileProviderBinding
    → StorageProfileProviderBinding
    → String
    → Bool
conflicts expected hot_binding canonical_binding prefix =
    differs (λ a b. a == b) expected.hot_provider_id
      (Option.map (λ (b : StorageProfileProviderBinding). b.provider_id) hot_binding)
    || differs (λ a b. a == b) expected.hot_bucket
        (Option.map (λ (b : StorageProfileProviderBinding). b.bucket_label) hot_binding)
    || differs (λ a b. a == b) expected.canonical_provider_id canonical_binding.provider_id
    || differs (λ a b. a == b) expected.canonical_bucket canonical_binding.bucket_label
    || differs (λ a b. a == b) expected.normalized_prefix_pattern prefix

unfoldable pub assert_configuration :
    Option ProviderConfigurationExpectation
    → Option StorageProfileProviderBinding
    → StorageProfileProviderBinding
    → String
    → Answer (Unit {0})
unfolding conflicts
assert_configuration none hot_binding canonical_binding prefix = ok tt
assert_configuration (some expected) hot_binding canonical_binding prefix =
    fail_if (conflicts expected hot_binding canonical_binding prefix) configuration_conflict

-- `matches[0]` of a list that has to hold one element
abbrev pub the_only {ℓ} :
    {A : Type ℓ}
    → ControlPlaneErrorCode
    → ControlPlaneErrorCode
    → List A
    → Result ControlPlaneErrorCode A
the_only empty several [] = err empty
the_only empty several (x ∷ []) = ok x
the_only empty several (x ∷ y ∷ l) = err several

abbrev pub found_or {ℓ} :
    {A : Type ℓ} → ControlPlaneErrorCode → Option A → Result ControlPlaneErrorCode A
found_or e none = err e
found_or e (some x) = ok x

abbrev pub is_empty {ℓ} : {A : Type ℓ} → List A → Bool
is_empty [] = true
is_empty (x ∷ l) = false

-- the loop over the roles
pub select_bindings :
    List StorageProfileProviderBinding
    → List ProviderRole
    → Answer (List StorageProfileProviderBinding)
select_bindings bindings [] = ok []
select_bindings bindings (role ∷ rest) = do
  b ←
      the_only provider_binding_missing provider_binding_ambiguous
        (filter (λ b. b.provider_role == role) bindings)
  selected ← select_bindings bindings rest
  ok (b ∷ selected)

-- the loop over the selected bindings
pub check_providers :
    List StorageProviderRecord → List StorageProfileProviderBinding → Answer (Unit {0})
check_providers providers [] = ok tt
check_providers providers (b ∷ rest) = do
  provider ← found_or provider_not_found (find (λ p. p.provider_id == b.provider_id) providers)
  fail_if (not (provider.status == ActiveStatus.active)) provider_disabled
  check_providers providers rest

pub record SafeFingerprintPayload : Type 0 where
  pub app_id : String
  pub environment : Environment
  pub profile_id : String
  pub profile_version : ℕ
  pub hot_provider_id : Option String
  pub hot_bucket : Option String
  pub canonical_provider_id : String
  pub canonical_bucket : String
  pub prefix_class_id : String
  pub capability_policy_version : String

abbrev pub assignment : StorageProfileProviderBinding → SafeProviderAssignment
assignment b = record { provider_id = b.provider_id; bucket_label = b.bucket_label }

abbrev pub optional_assignment :
    Option StorageProfileProviderBinding → Option SafeProviderAssignment
optional_assignment none = none
optional_assignment (some b) = some (assignment b)

pub create_safe_fingerprint_payload :
    String
    → Environment
    → String
    → ℕ
    → Option SafeProviderAssignment
    → SafeProviderAssignment
    → String
    → SafeFingerprintPayload
create_safe_fingerprint_payload app_id environment profile_id version hot_provider
      canonical_provider prefix_class_id =
    record {
      app_id = app_id;
      environment = environment;
      profile_id = profile_id;
      profile_version = version;
      hot_provider_id = Option.map (λ (a : SafeProviderAssignment). a.provider_id) hot_provider;
      hot_bucket = Option.map (λ (a : SafeProviderAssignment). a.bucket_label) hot_provider;
      canonical_provider_id = canonical_provider.provider_id;
      canonical_bucket = canonical_provider.bucket_label;
      prefix_class_id = prefix_class_id;
      capability_policy_version = "1";
    }

pub create_safe_fingerprint : (SafeFingerprintPayload → String) → SafeFingerprintPayload → String
create_safe_fingerprint payload_digest payload =
    text_append "zs-profile-v1:" (payload_digest payload)

abbrev pub is_app : ResolveStorageProfileInput → ManagedAppEnvironment → Bool
is_app input r = r.app_id == input.app_id && r.environment == input.environment

abbrev pub by_id : ResolveStorageProfileInput → StorageProfileRecord → Bool
by_id input p = p.profile_id == input.profile_id

abbrev pub in_app : ResolveStorageProfileInput → StorageProfileRecord → Bool
in_app input p = p.app_id == input.app_id && p.environment == input.environment

abbrev pub is_active : StorageProfileRecord → Bool
is_active p = p.status == ProfileStatus.active

pub select_profile :
    List StorageProfileRecord → ResolveStorageProfileInput → Answer StorageProfileRecord
select_profile profiles input = do
  let profiles_by_id = filter (by_id input) profiles
  fail_if (is_empty profiles_by_id) profile_not_found
  let scoped_profiles = filter (in_app input) profiles_by_id
  fail_if (is_empty scoped_profiles) profile_app_mismatch
  the_only profile_not_active profile_version_ambiguous (filter is_active scoped_profiles)

abbrev pub of_profile : StorageProfileRecord → StorageProfileProviderBinding → Bool
of_profile p b = b.profile_id == p.profile_id && b.profile_version == p.version

abbrev pub has_role : ProviderRole → StorageProfileProviderBinding → Bool
has_role role b = b.provider_role == role

pub check_key :
    List StoragePrefixClass
    → StorageProfileRecord
    → OperationClass
    → Option String
    → Answer (Unit {0})
check_key classes p operation none = ok tt
check_key classes p operation (some key) =
    assert_object_key_allowed classes p.profile_id p.version operation key

module _ (payload_digest : SafeFingerprintPayload → String) (data_set : ControlPlaneDataSet)
    (now : ℕ) where
  unfoldable pub resolve : ResolveStorageProfileInput → Answer ResolvedStorageProfileAssignment
  unfolding select_profile select_bindings check_providers check_key create_safe_fingerprint
      create_safe_fingerprint_payload
  resolve input = do
    app ← found_or managed_app_not_found (find (is_app input) data_set.managed_apps)
    fail_if (not (app.status == ActiveStatus.active)) managed_app_disabled
    p ← select_profile data_set.profiles input
    let bindings = filter (of_profile p) data_set.bindings
    selected ← select_bindings bindings (required_roles input.operation_class bindings)
    canonical_binding ← found_or provider_binding_missing (find (has_role canonical) selected)
    let hot_binding = find (has_role hot) selected
    check_providers data_set.providers selected
    prefix_class ←
        find_active_prefix_class data_set.prefix_classes p.profile_id p.version
          input.operation_class
    check_key data_set.prefix_classes p input.operation_class input.object_key
    assert_configuration input.expected_configuration hot_binding canonical_binding
        prefix_class.normalized_prefix_pattern
    policy ← assert_ready data_set.capability_results now (record {
      profile_id = p.profile_id;
      profile_version = p.version;
      prefix_class_id = prefix_class.prefix_class_id;
      bindings = selected;
    })
    ok (record {
      app_id = p.app_id;
      environment = p.environment;
      profile_id = p.profile_id;
      profile_version = p.version;
      hot_provider = optional_assignment hot_binding;
      canonical_provider = assignment canonical_binding;
      prefix_class_id = prefix_class.prefix_class_id;
      normalized_prefix_pattern = prefix_class.normalized_prefix_pattern;
      capability_policy = policy;
      safe_fingerprint = create_safe_fingerprint payload_digest (
          create_safe_fingerprint_payload p.app_id p.environment p.profile_id p.version
            (optional_assignment hot_binding) (assignment canonical_binding)
            prefix_class.prefix_class_id);
    })

abbrev pub is_active_of : String → StorageProfileRecord → Bool
is_active_of profile_id p = p.profile_id == profile_id && p.status == ProfileStatus.active

abbrev single_version : List StorageProfileRecord → Option ℕ
single_version (p ∷ []) = some p.version
single_version _ = none

unfoldable pub get_active_profile_version : ControlPlaneDataSet → String → Option ℕ
get_active_profile_version data_set profile_id =
    single_version (filter (is_active_of profile_id) data_set.profiles)

abbrev role_capabilities : ProviderRole → List RequiredCapability
role_capabilities role =
    map (λ c. record { provider_role = role; capability = c; acceptance = Acceptance.passed })
      strict_required_capabilities
    ++ record {
      provider_role = role;
      capability = Capability.size;
      acceptance = Acceptance.passed_or_not_supported;
    }
      ∷ []

list_for :
    ControlPlaneDataSet → OperationClass → List StorageProfileRecord → List RequiredCapability
list_for data_set operation (p ∷ []) =
    flat_map role_capabilities (required_roles operation (filter (of_profile p) data_set.bindings))
list_for data_set operation _ = []

unfoldable pub list_required_capabilities :
    ControlPlaneDataSet → String → OperationClass → List RequiredCapability
unfolding list_for
list_required_capabilities data_set profile_id operation =
    list_for data_set operation (filter (is_active_of profile_id) data_set.profiles)
