-- ===== src/Config/Store/Changes.antt =====
-- src/client-storage-configuration.ts: how a request changes the versions of a store.
use z_s_app.Prelude.{
  ℕ, String, ◌≡◌, refl, ap, ◌∙◌, true, Option, none, some, inl, inr, List, [], ◌∷◌, arith,
  Bool-cases, Option-cases, Result-cases, any, ok, ◌==◌, eq_iff, string_eq,
}
use z_s_app.Prelude.Map
use z_s_app.Prelude.Map.{Map, count-remove}
use z_s_app.Config.Document.{
  ClientStorageEnvironment, ConfigurationVersionState, ConfigurationDraftDocument,
  client_environment_tag_iff, client_environment_eq, version_state_eq,
}
use z_s_app.Config.State.{StoredVersion, ConfigurationStore}
use z_s_app.Config.Store.{
  in_state, is_active_in, supersede, activated, find_version, assert_configuration_draft_input,
  register_client, create_draft, replace_draft, delete_draft, activate_draft, clone_version,
  is_none_left,
}
use z_s_app.Config.Store.Requests.{
  Request, register, create, replace, delete, activate, clone, settle, settle_pair, handle,
}
use z_s_app.Config.Validation.{ValidationError, validate_configuration_draft}
use z_s_app.Config.Text.{is_identifier}

-- What a version that was found is.
pub find_version-found :
    (c : String) (e : ClientStorageEnvironment) (k : String) (s : ConfigurationStore)
    (v : StoredVersion)
    → find_version c e k s ≡ ok v
    → (Map.get k s.versions ≡ some v) × (v.client_id ≡ c) × (v.snapshot.environment ≡ e)
unfolding find_version
find_version-found c e k s v h = elim (Option-cases (Map.get k s.versions)) [
  | inl missing ↦ absurd (ground (arith, h, missing))
  | inr (w, found) ↦
      let same : w ≡ v = ground (arith, h, found) in
      (
        found ∙ ap some same,
        ground (arith, h, found, eq_iff v.client_id c),
        ground (arith, h, found, client_environment_tag_iff v.snapshot.environment e),
      )
]

-- the id that a request gives to a new version
abbrev pub new_id : Request → Option String
new_id (create c e d now id) = some id
new_id (clone c e k now id) = some id
new_id _ = none

abbrev pub IsDraft : StoredVersion → Type 0
IsDraft v = in_state ConfigurationVersionState.draft v ≡ true

module _ (to_lower_case : List ℕ → List ℕ) where
  -- What one request may do to the versions.
  pub data Change (r : Request) (m m' : Map StoredVersion) : Type 0 where
    same : m' ≡ m → Change r m m'
    added :
        (k : String) (v : StoredVersion)
        → new_id r ≡ some k
        → IsDraft v
        → m' ≡ Map.put k v m
        → Change r m m'
    replaced :
        (k : String) (old v : StoredVersion)
        → Map.get k m ≡ some old
        → IsDraft old
        → IsDraft v
        → m' ≡ Map.put k v m
        → Change r m m'
    deleted :
        (k : String) (old : StoredVersion)
        → Map.get k m ≡ some old
        → IsDraft old
        → m' ≡ Map.remove k m
        → Change r m m'
    activated_draft :
        (k : String) (now : ℕ) (v : StoredVersion)
        → Map.get k m ≡ some v
        → IsDraft v
        → validate_configuration_draft to_lower_case v.snapshot.document ≡ []
        → m'
          ≡ Map.put k
              (record v { snapshot = activated now v.snapshot })
              (Map.update_first (is_active_in v.client_id v.snapshot.environment) (supersede now) m)
        → Change r m m'

  create-Change :
      (r : Request) (c : String) (e : ClientStorageEnvironment) (d : ConfigurationDraftDocument)
      (now : ℕ) (from : Option String) (id : String) (s : ConfigurationStore)
      → new_id r ≡ some id
      → Change r s.versions
          (settle_pair s (create_draft to_lower_case c e d now from id s)).versions
  unfolding create_draft
  create-Change r c e d now from id s n = elim (Bool-cases (any (λ x. x == c) s.clients)) [
    | inr e ↦ rw e (same refl)
    | inl e ↦ rw e (elim (Result-cases (assert_configuration_draft_input d)) [
      | inl (u, e') ↦ rw e' (added id _ n refl refl)
      | inr (f, e') ↦ rw e' (same refl)
    ])
  ]

  replace-Change :
      (r : Request) (c : String) (e : ClientStorageEnvironment) (k : String)
      (d : ConfigurationDraftDocument) (now : ℕ) (s : ConfigurationStore)
      → Change r s.versions (settle_pair s (replace_draft to_lower_case c e k d now s)).versions
  unfolding replace_draft
  replace-Change r c e k d now s = elim (Bool-cases (any (λ x. x == c) s.clients)) [
    | inr no_client ↦ rw no_client (same refl)
    | inl client ↦ rw client (elim (Result-cases (assert_configuration_draft_input d)) [
      | inr (f, bad) ↦ rw bad (same refl)
      | inl (u, good) ↦ rw good (elim (Result-cases (find_version c e k s)) [
        | inr (f, missing) ↦ rw missing (same refl)
        | inl (v, found) ↦
            rw found (elim (Bool-cases (in_state ConfigurationVersionState.draft v)) [
              | inr fixed ↦ rw fixed (same refl)
              | inl open_draft ↦
                  rw open_draft (
                    replaced k v _ (find_version-found c e k s v found).0 open_draft open_draft
                      refl)
            ])
      ])
    ])
  ]

  delete-Change :
      (r : Request) (c : String) (e : ClientStorageEnvironment) (k : String)
      (s : ConfigurationStore)
      → Change r s.versions (settle s (delete_draft to_lower_case c e k s)).versions
  unfolding delete_draft
  delete-Change r c e k s = elim (Bool-cases (any (λ x. x == c) s.clients)) [
    | inr no_client ↦ rw no_client (same refl)
    | inl client ↦ rw client (elim (Result-cases (find_version c e k s)) [
      | inr (f, missing) ↦ rw missing (same refl)
      | inl (v, found) ↦ rw found (elim (Bool-cases (in_state ConfigurationVersionState.draft v)) [
        | inr fixed ↦ rw fixed (same refl)
        | inl open_draft ↦
            rw open_draft (deleted k v (find_version-found c e k s v found).0 open_draft refl)
      ])
    ])
  ]

  clone-Change :
      (r : Request) (c : String) (e : ClientStorageEnvironment) (k : String) (now : ℕ) (id : String)
      (s : ConfigurationStore)
      → new_id r ≡ some id
      → Change r s.versions (settle_pair s (clone_version to_lower_case c e k now id s)).versions
  unfolding clone_version
  clone-Change r c e k now id s n = elim (Bool-cases (any (λ x. x == c) s.clients)) [
    | inr no_client ↦ rw no_client (same refl)
    | inl client ↦ rw client (elim (Result-cases (find_version c e k s)) [
      | inr (f, missing) ↦ rw missing (same refl)
      | inl (v, found) ↦
          rw found (create-Change r c e v.snapshot.document now (some v.snapshot.id) id s n)
    ])
  ]

  empty_of : (l : List ValidationError) → is_none_left l ≡ true → l ≡ []
  empty_of [] h = refl
  empty_of (x ∷ l) h = cc

  activate-Change :
      (r : Request) (c : String) (e : ClientStorageEnvironment) (k : String) (now : ℕ)
      (s : ConfigurationStore)
      → Change r s.versions (settle_pair s (activate_draft to_lower_case c e k now s)).versions
  unfolding activate_draft
  activate-Change r c e k now s = elim (Bool-cases (any (λ x. x == c) s.clients)) [
    | inr no_client ↦ rw no_client (same refl)
    | inl client ↦ rw client (elim (Result-cases (find_version c e k s)) [
      | inr (f, missing) ↦ rw missing (same refl)
      | inl (v, found) ↦ rw found (elim (Bool-cases (in_state ConfigurationVersionState.draft v)) [
        | inr fixed ↦ rw fixed (same refl)
        | inl open_draft ↦
            rw open_draft
              (elim (Bool-cases
                (is_none_left (validate_configuration_draft to_lower_case v.snapshot.document))) [
                  | inr invalid ↦ rw invalid (same refl)
                  | inl sound ↦
                      let (held, is_c, is_e) = find_version-found c e k s v found in
                      rw (sound, ← is_c, ← is_e)
                        (activated_draft k now v held open_draft (empty_of _ sound) refl)
                ])
      ])
    ])
  ]

  register-Change :
      (r : Request) (c : String) (s : ConfigurationStore)
      → Change r s.versions (settle s (register_client c s)).versions
  unfolding register_client
  register-Change r c s = elim (Bool-cases (is_identifier c)) [
    | inl good ↦ rw good (same refl)
    | inr bad ↦ rw bad (same refl)
  ]

  -- Every request makes one of the changes, whatever it returns.
  pub handle-Change :
      (r : Request) (s : ConfigurationStore)
      → Change r s.versions (handle to_lower_case r s).versions
  unfolding handle
  handle-Change (register c) s = register-Change _ c s
  handle-Change (create c e d now id) s = create-Change _ c e d now none id s refl
  handle-Change (replace c e k d now) s = replace-Change _ c e k d now s
  handle-Change (delete c e k) s = delete-Change _ c e k s
  handle-Change (activate c e k now) s = activate-Change _ c e k now s
  handle-Change (clone c e k now id) s = clone-Change _ c e k now id s refl
