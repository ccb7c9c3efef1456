-- ===== src/Profile/Selection.antt =====
-- src/profile-registry.ts: the bindings that a resolution selects, and their providers.
use z_s_app.Prelude.{
  ◌≡◌, sym, subst, ◌∙◌, ◌≢◌, false, ◌&&◌, not, Option, none, some, List, [], ◌∷◌, arith, All, Holds,
  find-some, filter-single, filter-filter, ok, bind-eq-ok, ok-injective, fail_if, fail_if-eq-ok,
  fail_if-then, ◌==◌, filter, find, string_eq, eq_iff,
}
use z_s_app.Domain.{
  ActiveStatus, ProviderRole, hot, ControlPlaneErrorCode, active_status_eq, provider_role_eq,
  provider_role_tag_iff, profile_not_found, profile_app_mismatch, profile_not_active,
  profile_version_ambiguous,
}
use z_s_app.Records.{
  StorageProviderRecord, StorageProfileRecord, StorageProfileProviderBinding,
  ResolveStorageProfileInput,
}
use z_s_app.Profile.{
  the_only, found_or, select_bindings, check_providers, has_role, select_profile, by_id, in_app,
  is_active, is_empty,
}

pub the_only-eq-ok {ℓ} :
    {A : Type ℓ} (e f : ControlPlaneErrorCode) (l : List A) {x : A}
    → the_only e f l ≡ ok x
    → l ≡ x ∷ []
the_only-eq-ok e f [] h = cc
the_only-eq-ok e f (x ∷ []) h = cc
the_only-eq-ok e f (x ∷ y ∷ l) h = cc

pub found_or-eq-ok {ℓ} :
    {A : Type ℓ} (e : ControlPlaneErrorCode) (o : Option A) {x : A}
    → found_or e o ≡ ok x
    → o ≡ some x
found_or-eq-ok e none h = cc
found_or-eq-ok e (some y) h = cc

pub status_active :
    (s : ActiveStatus) → not (s == ActiveStatus.active) ≡ false → s ≡ ActiveStatus.active
status_active s h = ground arith

-- An active provider of the binding is on record.
pub record HasProvider (providers : List StorageProviderRecord) (b : StorageProfileProviderBinding)
    : Type 0 where
  pub provider : StorageProviderRecord
  pub recorded : Holds (λ p. p ≡ provider) providers
  pub named : provider.provider_id ≡ b.provider_id
  pub active : provider.status ≡ ActiveStatus.active

pub check_providers-HasProvider :
    (providers : List StorageProviderRecord) (bs : List StorageProfileProviderBinding)
    {u : Unit {0}}
    → check_providers providers bs ≡ ok u
    → All (HasProvider providers) bs
unfolding check_providers
check_providers-HasProvider providers [] h = tt
check_providers-HasProvider providers (b ∷ bs) h =
    let (p, found, h1) = bind-eq-ok (found_or _ _) _ h in
    let (_, active, h2) = bind-eq-ok (fail_if _ _) _ h1 in
    let (recorded, named) =
      find-some (λ q. q.provider_id == b.provider_id) providers p (found_or-eq-ok _ _ found) in
    (
      record {
        provider = p;
        recorded = recorded;
        named = (eq_iff _ _).0 named;
        active = status_active p.status (fail_if-eq-ok _ _ active);
      },
      check_providers-HasProvider providers bs h2,
    )

module _ (bindings : List StorageProfileProviderBinding) where
  -- The binding is the only one of its role.
  abbrev pub IsOnly : StorageProfileProviderBinding → Type 0
  IsOnly b = filter (has_role b.provider_role) bindings ≡ b ∷ []

  role_of :
      (role : ProviderRole) (b : StorageProfileProviderBinding)
      → filter (has_role role) bindings ≡ b ∷ []
      → role ≡ b.provider_role
  role_of role b h =
      sym (
        (provider_role_tag_iff b.provider_role role).0 (filter-single (has_role role) bindings b h))

  pub select_bindings-IsOnly :
      (roles : List ProviderRole) (selected : List StorageProfileProviderBinding)
      → select_bindings bindings roles ≡ ok selected
      → All IsOnly selected
  unfolding select_bindings
  select_bindings-IsOnly [] selected h = rw (← ok-injective _ _ h) tt
  select_bindings-IsOnly (role ∷ roles) selected h =
      let (b, only, h1) = bind-eq-ok (the_only _ _ (filter (has_role role) bindings)) _ h in
      let (rest, later, h2) = bind-eq-ok (select_bindings bindings roles) _ h1 in
      let single = the_only-eq-ok _ _ _ only in
      rw (← ok-injective _ _ h2) (
        subst (λ r. filter (has_role r) bindings ≡ b ∷ []) (role_of role b single) single,
        select_bindings-IsOnly roles rest later,
      )

  -- Where the first role is hot, the search for a hot binding succeeds.
  pub find-hot :
      (roles : List ProviderRole) (selected : List StorageProfileProviderBinding)
      → select_bindings bindings (hot ∷ roles) ≡ ok selected
      → find (has_role hot) selected ≢ none
  unfolding select_bindings find
  find-hot roles selected h =
      let (b, only, h1) = bind-eq-ok (the_only _ _ (filter (has_role hot) bindings)) _ h in
      let (rest, later, h2) = bind-eq-ok (select_bindings bindings roles) _ h1 in
      let is_hot = filter-single (has_role hot) bindings b (the_only-eq-ok _ _ _ only) in
      rw (← ok-injective _ _ h2, is_hot) (λ e. cc)

select_parts :
    (profiles : List StorageProfileRecord) (input : ResolveStorageProfileInput)
    (p : StorageProfileRecord)
    → select_profile profiles input ≡ ok p
    → filter is_active (filter (in_app input) (filter (by_id input) profiles)) ≡ p ∷ []
unfolding select_profile
select_parts profiles input p h =
    let (_, h1) = fail_if-then (is_empty (filter (by_id input) profiles)) profile_not_found _ h in
    let (_, h2) =
      fail_if-then (is_empty (filter (in_app input) (filter (by_id input) profiles)))
        profile_app_mismatch _ h1 in
    the_only-eq-ok profile_not_active profile_version_ambiguous _ h2

-- The selected profile is the only active one of that name in the application's environment.
pub select_profile-only :
    (profiles : List StorageProfileRecord) (input : ResolveStorageProfileInput)
    (p : StorageProfileRecord)
    → select_profile profiles input ≡ ok p
    → filter (λ q. by_id input q && (in_app input q && is_active q)) profiles ≡ p ∷ []
select_profile-only profiles input p h =
    sym (filter-filter (λ q. in_app input q && is_active q) (by_id input) profiles)
    ∙ sym (filter-filter is_active (in_app input) (filter (by_id input) profiles))
    ∙ select_parts profiles input p h
