-- ===== src/Config/Store/Valid.antt =====
-- src/client-storage-configuration.ts: what is active has a document without validation errors.
use mathlib.Core.Bool.{false≢true}
use z_s_app.Prelude.{
  ℕ, String, ◌≡◌, sym, ap, subst, ◌∙◌, Bool, true, false, none, some, ◌⊎◌, inl, inr, List, [], ◌∷◌,
  arith, string_eq,
}
use z_s_app.Prelude.Map
use z_s_app.Prelude.Map.{Map, get-put, get-remove, get-update_first}
use z_s_app.Config.Document.{ConfigurationVersionState, version_state_eq}
use z_s_app.Config.State.{StoredVersion, ConfigurationStore}
use z_s_app.Config.Store.{in_state, is_active_in, supersede}
use z_s_app.Config.Store.Requests.{Request, handle_all}
use z_s_app.Config.Store.Changes.{
  Change, same, added, replaced, deleted, activated_draft, handle-Change, IsDraft,
}
use z_s_app.Config.Validation.{validate_configuration_draft}

-- What `put` leaves under a key is the new value or an old one.
get-put-cases :
    (j k : String) (x w : StoredVersion) (m : Map StoredVersion)
    → Map.get k (Map.put j x m) ≡ some w
    → (w ≡ x) ⊎ (Map.get k m ≡ some w)
get-put-cases j k x w m h = ground (arith, get-put j k x m, h)

get-remove-cases :
    (j k : String) (w : StoredVersion) (m : Map StoredVersion)
    → Map.get k (Map.remove j m) ≡ some w
    → Map.get k m ≡ some w
get-remove-cases j k w m h = ground (arith, get-remove j k m, h)

none-some : (v : StoredVersion) → none ≡ some v → ⊥
none-some v h = cc

module _ (to_lower_case : List ℕ → List ℕ) where
  -- Each active version's document passes the validation.
  abbrev pub IsValidated : Map StoredVersion → Type 0
  IsValidated m =
      (k : String) (v : StoredVersion)
      → Map.get k m ≡ some v
      → in_state ConfigurationVersionState.active v ≡ true
      → validate_configuration_draft to_lower_case v.snapshot.document ≡ []

  put-IsValidated :
      (k : String) (x : StoredVersion) (m : Map StoredVersion)
      → (in_state ConfigurationVersionState.active x ≡ true
          → validate_configuration_draft to_lower_case x.snapshot.document ≡ [])
      → IsValidated m
      → IsValidated (Map.put k x m)
  put-IsValidated j x m fine h k v held is_active = elim (get-put-cases j k x v m held) [
    | inl e ↦
        subst (λ t. validate_configuration_draft to_lower_case t.snapshot.document ≡ []) (sym e)
          (fine (ap (in_state ConfigurationVersionState.active) (sym e) ∙ is_active))
    | inr old ↦ h k v old is_active
  ]

  draft_inactive :
      (v : StoredVersion)
      → in_state ConfigurationVersionState.draft v ≡ true
      → in_state ConfigurationVersionState.active v ≡ false
  draft_inactive v d = ground (arith, d)

  vacuous :
      (v : StoredVersion)
      → IsDraft v
      → in_state ConfigurationVersionState.active v ≡ true
      → validate_configuration_draft to_lower_case v.snapshot.document ≡ []
  vacuous v d a = absurd (false≢true (sym (draft_inactive v d) ∙ a))

  others-IsValidated :
      (test : StoredVersion → Bool) (now : ℕ) (m : Map StoredVersion)
      → IsValidated m
      → IsValidated (Map.update_first test (supersede now) m)
  others-IsValidated test now m h k w held a =
      elim (Map.get-update_first-cases test (supersede now) k m w held) [
        | inl old ↦ h k w old a
        | inr (v, e) ↦
            absurd (false≢true (ap (in_state ConfigurationVersionState.active) (sym e) ∙ a))
      ]

  change-IsValidated :
      (r : Request) (m m' : Map StoredVersion)
      → Change to_lower_case r m m'
      → IsValidated m
      → IsValidated m'
  change-IsValidated r m m' (same e) h = subst IsValidated (sym e) h
  change-IsValidated r m m' (added k v n d e) h =
      subst IsValidated (sym e) (put-IsValidated k v m (vacuous v d) h)
  change-IsValidated r m m' (replaced k old v g d d' e) h =
      subst IsValidated (sym e) (put-IsValidated k v m (vacuous v d') h)
  change-IsValidated r m m' (deleted j old g d e) h =
      subst IsValidated (sym e) (λ k v held a. h k v (get-remove-cases j k v m held) a)
  change-IsValidated r m m' (activated_draft k now v g d valid e) h = subst IsValidated (sym e) (
      put-IsValidated k _ _ (λ _. valid)
        (others-IsValidated (is_active_in v.client_id v.snapshot.environment) now m h))

  handle_all-IsValidated :
      (requests : List Request) (s : ConfigurationStore)
      → IsValidated s.versions
      → IsValidated (handle_all to_lower_case requests s).versions
  unfolding handle_all
  handle_all-IsValidated [] s h = h
  handle_all-IsValidated (r ∷ rest) s h =
      handle_all-IsValidated rest _ (change-IsValidated r _ _ (handle-Change to_lower_case r s) h)

  none_yet : (s : ConfigurationStore) → s.versions ≡ [] → IsValidated s.versions
  unfolding Map.get
  none_yet s e k v held a = absurd (none-some v (sym (ap (Map.get k) e) ∙ held))

  -- A store that starts without versions and is sent any requests, valid or refused, has no active
  -- version whose document fails the validation.
  pub handle_all-validated :
      (requests : List Request) (s : ConfigurationStore) (k : String) (v : StoredVersion)
      → s.versions ≡ []
      → Map.get k (handle_all to_lower_case requests s).versions ≡ some v
      → in_state ConfigurationVersionState.active v ≡ true
      → validate_configuration_draft to_lower_case v.snapshot.document ≡ []
  handle_all-validated requests s k v e held a =
      handle_all-IsValidated requests s (none_yet s e) k v held a
