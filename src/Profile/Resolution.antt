-- ===== src/Profile/Resolution.antt =====
-- src/profile-registry.ts: what a resolved storage profile stands on.
use z_s_app.Prelude.{
  ℕ, ◌≡◌, refl, sym, ap, subst, ◌∙◌, ◌≢◌, ◌⊎◌, true, ◌&&◌, not, Option, none, some, inl, inr, List,
  [], ◌∷◌, arith, All, Holds, All-Holds, find-some, ok, bind-eq-ok, ok-injective, fail_if-then,
  ◌==◌, filter, find, String, string_eq, codes,
}
use z_s_app.Domain.{
  ActiveStatus, ProviderRole, hot, canonical, OperationClass, provider_role_tag_iff,
  active_status_eq, managed_app_disabled, provider_binding_missing,
}
use z_s_app.Records.{
  ManagedAppEnvironment, StorageProfileRecord, StorageProfileProviderBinding,
  SafeProviderAssignment, ResolvedStorageProfileAssignment, ResolveStorageProfileInput,
  ControlPlaneDataSet, StoragePrefixClass, CapabilityReadinessInput,
}
use z_s_app.Prefix.{find_active_prefix_class, assert_object_key_allowed}
use z_s_app.Prefix.Keys.{IsSafeKey}
use z_s_app.Prefix.Matching.{IsPatternOf}
use z_s_app.Prefix.Authority.{object_key_matches_pattern_iff, allowed-eq-ok}
use z_s_app.Capability.{assert_ready, Scope}
use z_s_app.Capability.Readiness.{IsReady}
use z_s_app.Capability.Soundness.{assert_ready_sound}
use z_s_app.Profile.{
  SafeFingerprintPayload, assignment, optional_assignment, found_or, select_bindings,
  check_providers, check_key, has_role, of_profile, is_app, by_id, in_app, is_active,
  select_profile, required_roles, assert_configuration, resolve,
}
use z_s_app.Profile.Selection.{
  found_or-eq-ok, status_active, HasProvider, check_providers-HasProvider, IsOnly,
  select_bindings-IsOnly, find-hot, select_profile-only,
}

module _ (data_set : ControlPlaneDataSet) (now : ℕ) (p : StorageProfileRecord)
    (class_id : String) where
  abbrev pub binding_scope : StorageProfileProviderBinding → Scope
  binding_scope b = record {
    profile_id = p.profile_id;
    profile_version = p.version;
    provider_id = b.provider_id;
    bucket_label = b.bucket_label;
    prefix_class_id = class_id;
  }

  -- A provider and bucket that serve the profile in a role.
  pub record Serves (role : ProviderRole) (s : SafeProviderAssignment) : Type 0 where
    pub binding : StorageProfileProviderBinding
    pub assigned : assignment binding ≡ s
    pub in_role : binding.provider_role ≡ role
    pub only : IsOnly (filter (of_profile p) data_set.bindings) binding
    pub provided : HasProvider data_set.providers binding
    pub ready : IsReady data_set.capability_results now (binding_scope binding)

  serves :
      (role : ProviderRole) (selected : List StorageProfileProviderBinding)
      (b : StorageProfileProviderBinding)
      → find (has_role role) selected ≡ some b
      → All (IsOnly (filter (of_profile p) data_set.bindings)) selected
      → All (HasProvider data_set.providers) selected
      → All (λ b. IsReady data_set.capability_results now (binding_scope b)) selected
      → Serves role (assignment b)
  serves role selected b found only provided ready =
      let (held, in_role) = find-some (has_role role) selected b found in
      record {
        binding = b;
        assigned = refl;
        in_role = (provider_role_tag_iff b.provider_role role).0 in_role;
        only = All-Holds (IsOnly (filter (of_profile p) data_set.bindings)) selected b only held;
        provided = All-Holds (HasProvider data_set.providers) selected b provided held;
        ready =
            All-Holds (λ b. IsReady data_set.capability_results now (binding_scope b)) selected b
              ready held;
      }

-- What a resolution stands on, at the time `now`.
pub record IsResolved (data_set : ControlPlaneDataSet) (now : ℕ)
    (input : ResolveStorageProfileInput) (a : ResolvedStorageProfileAssignment) : Type 0 where
  pub app : ManagedAppEnvironment
  pub app_recorded : Holds (λ r. r ≡ app) data_set.managed_apps
  pub app_named : is_app input app ≡ true
  pub app_active : app.status ≡ ActiveStatus.active
  pub profile : StorageProfileRecord
  pub only_profile :
      filter (λ q. by_id input q && (in_app input q && is_active q)) data_set.profiles
      ≡ profile ∷ []
  pub profile_id : a.profile_id ≡ profile.profile_id
  pub profile_version : a.profile_version ≡ profile.version
  pub canonical_serves :
      Serves data_set now profile a.prefix_class_id canonical a.canonical_provider
  pub hot_serves :
      (s : SafeProviderAssignment)
      → a.hot_provider ≡ some s
      → Serves data_set now profile a.prefix_class_id hot s
  pub hot_present :
      (input.operation_class ≡ OperationClass.user_upload)
        ⊎ (input.operation_class ≡ OperationClass.generated_asset)
      → a.hot_provider ≢ none
  pub key_inside :
      (key : String)
      → input.object_key ≡ some key
      → IsSafeKey (codes key) × IsPatternOf (codes a.normalized_prefix_pattern) (codes key)

check_key-allowed :
    (classes : List StoragePrefixClass) (p : StorageProfileRecord) (operation : OperationClass)
    (o : Option String) (r : StoragePrefixClass) {u : Unit {0}}
    → find_active_prefix_class classes p.profile_id p.version operation ≡ ok r
    → check_key classes p operation o ≡ ok u
    → (key : String) → o ≡ some key
    → IsSafeKey (codes key) × IsPatternOf (codes r.normalized_prefix_pattern) (codes key)
unfolding check_key assert_object_key_allowed
check_key-allowed classes p operation none r found h key e = absurd (ground (arith, e))
check_key-allowed classes p operation (some k) r found h key e =
    let same : k ≡ key = cc in
    let h1 = rw found at h in
    let (b, matched, h2) = bind-eq-ok _ _ h1 in
    subst (λ t. IsSafeKey (codes t) × IsPatternOf (codes r.normalized_prefix_pattern) (codes t))
      same
      ((object_key_matches_pattern_iff k r.normalized_prefix_pattern).0
        (matched ∙ ap ok (allowed-eq-ok b h2)))

optional_assignment-some :
    (o : Option StorageProfileProviderBinding) (s : SafeProviderAssignment)
    → optional_assignment o ≡ some s
    → (b : StorageProfileProviderBinding) × (o ≡ some b) × (assignment b ≡ s)
optional_assignment-some none s h = cc
optional_assignment-some (some b) s h = (b, refl, cc)

optional_assignment-none :
    (o : Option StorageProfileProviderBinding) → optional_assignment o ≡ none → o ≡ none
optional_assignment-none none h = refl
optional_assignment-none (some b) h = cc

hot_roles :
    (operation : OperationClass) (bindings : List StorageProfileProviderBinding)
    → (operation ≡ OperationClass.user_upload) ⊎ (operation ≡ OperationClass.generated_asset)
    → required_roles operation bindings ≡ hot ∷ canonical ∷ []
unfolding required_roles
hot_roles operation bindings (inl e) = rw e
hot_roles operation bindings (inr e) = rw e

module _ (payload_digest : SafeFingerprintPayload → String) (data_set : ControlPlaneDataSet)
    (now : ℕ) (input : ResolveStorageProfileInput) (a : ResolvedStorageProfileAssignment) where
  -- A profile is resolved only for an active application, to its only active version there. The
  -- canonical provider, and the hot one if any, come from the version's only binding of that role,
  -- have an active provider record, and have passed the readiness test for the returned prefix
  -- class at that time. An upload or a generated asset has a hot provider. An object key that was
  -- given is safe and lies behind the returned prefix.
  pub resolve_sound :
      resolve payload_digest data_set now input ≡ ok a → IsResolved data_set now input a
  unfolding resolve
  resolve_sound h =
      let (app, app_found, h1) =
        bind-eq-ok (found_or _ (find (is_app input) data_set.managed_apps)) _ h in
      let (app_recorded, app_named) =
        find-some (is_app input) data_set.managed_apps app (found_or-eq-ok _ _ app_found) in
      let (active, h2) =
        fail_if-then (not (app.status == ActiveStatus.active)) managed_app_disabled _ h1 in
      let (p, selected_p, h3) = bind-eq-ok (select_profile data_set.profiles input) _ h2 in
      let bindings = filter (of_profile p) data_set.bindings in
      let roles = required_roles input.operation_class bindings in
      let (selected, chosen, h4) = bind-eq-ok (select_bindings bindings roles) _ h3 in
      let (c, canonical_found, h5) =
        bind-eq-ok (found_or provider_binding_missing (find (has_role canonical) selected)) _ h4 in
      let (_, provided, h6) = bind-eq-ok (check_providers data_set.providers selected) _ h5 in
      let (r, class_found, h7) =
        bind-eq-ok
          (find_active_prefix_class data_set.prefix_classes p.profile_id p.version
            input.operation_class)
          _ h6 in
      let (_, key_checked, h8) =
        bind-eq-ok (check_key data_set.prefix_classes p input.operation_class input.object_key) _
          h7 in
      let (_, _, h9) =
        bind-eq-ok
          (assert_configuration input.expected_configuration (find (has_role hot) selected) c
            r.normalized_prefix_pattern)
          _ h8 in
      let request : CapabilityReadinessInput = record {
        profile_id = p.profile_id;
        profile_version = p.version;
        prefix_class_id = r.prefix_class_id;
        bindings = selected;
      } in
      let (policy, ready, h10) =
        bind-eq-ok (assert_ready data_set.capability_results now request) _ h9 in
      let same = ok-injective _ a h10 in
      let only = select_bindings-IsOnly bindings roles selected chosen in
      let provided' = check_providers-HasProvider data_set.providers selected provided in
      let ready' = (assert_ready_sound data_set.capability_results now request policy ready).0 in
      subst (IsResolved data_set now input) same (record {
        app = app;
        app_recorded = app_recorded;
        app_named = app_named;
        app_active = status_active app.status active;
        profile = p;
        only_profile = select_profile-only data_set.profiles input p selected_p;
        profile_id = refl;
        profile_version = refl;
        canonical_serves =
            serves data_set now p r.prefix_class_id canonical selected c
              (found_or-eq-ok provider_binding_missing _ canonical_found) only provided' ready';
        hot_serves = λ s e.
            let (b, found, same_b) = optional_assignment-some _ s e in
            subst (Serves data_set now p r.prefix_class_id hot) same_b
              (serves data_set now p r.prefix_class_id hot selected b found only provided' ready');
        hot_present = λ o e.
            find-hot bindings (canonical ∷ []) selected
              (ap (select_bindings bindings) (sym (hot_roles input.operation_class bindings o))
                ∙ chosen)
              (optional_assignment-none _ e);
        key_inside =
            check_key-allowed data_set.prefix_classes p input.operation_class input.object_key r
              class_found key_checked;
      })
