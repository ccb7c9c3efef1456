-- ===== src/Config/Store/Frozen.antt =====
-- src/client-storage-configuration.ts: a version that is no draft any more keeps its content.
use z_s_app.Prelude.{
  ℕ, String, ◌≡◌, refl, ap, subst, ◌∙◌, true, false, Option, none, some, inl, inr, List, [], ◌∷◌,
  arith, if◌then◌else◌, ◌==◌, eq_iff, string_eq,
}
use z_s_app.Prelude.Map
use z_s_app.Prelude.Map.{Map, get-put, get-remove, get-update_first}
use z_s_app.Config.Document.{ClientStorageEnvironment, ConfigurationVersionState, version_state_eq}
use z_s_app.Config.State.{StoredVersion, ConfigurationStore}
use z_s_app.Config.Store.{in_state, is_active_in, supersede, activated}
use z_s_app.Config.Store.Requests.{Request, handle, handle_all}
use z_s_app.Config.Store.Changes.{
  Change, same, added, replaced, deleted, activated_draft, handle-Change, new_id,
}

-- `w` is `v`, or `v` was active and `w` is `v` superseded.
pub data Kept (v w : StoredVersion) : Type 0 where
  untouched : w ≡ v → Kept v w
  superseded_by :
      (now : ℕ)
      → in_state ConfigurationVersionState.active v ≡ true
      → w ≡ supersede now v
      → Kept v w

-- `m'` holds each version of `m` that is no draft, as it was or superseded.
abbrev pub KeepsHistory : Map StoredVersion → Map StoredVersion → Type 0
KeepsHistory m m' =
    (k : String) (v : StoredVersion)
    → Map.get k m ≡ some v
    → in_state ConfigurationVersionState.draft v ≡ false
    → (w : StoredVersion) × (Map.get k m' ≡ some w) × Kept v w

-- The id of a new version is not in use.
abbrev pub IsUnused : Option String → Map StoredVersion → Type 0
IsUnused none m = Unit
IsUnused (some k) m = Map.get k m ≡ none

abbrev pub IsFresh : Request → Map StoredVersion → Type 0
IsFresh r m = IsUnused (new_id r) m

other_key :
    (k j : String) (m : Map StoredVersion) (v w : StoredVersion)
    → Map.get j m ≡ some w
    → in_state ConfigurationVersionState.draft w ≡ true
    → Map.get k m ≡ some v
    → in_state ConfigurationVersionState.draft v ≡ false
    → (j == k) ≡ false
other_key k j m v w a d b n = ground (arith, a, b, d, n, eq_iff j k)

unused_key :
    (k j : String) (m : Map StoredVersion) (v : StoredVersion)
    → Map.get j m ≡ none
    → Map.get k m ≡ some v
    → (j == k) ≡ false
unused_key k j m v a b = ground (arith, a, b, eq_iff j k)

put_elsewhere :
    (k j : String) (x : StoredVersion) (m : Map StoredVersion)
    → (j == k) ≡ false
    → Map.get k (Map.put j x m) ≡ Map.get k m
put_elsewhere k j x m e = get-put j k x m ∙ ap (λ t. if t then some x else Map.get k m) e

remove_elsewhere :
    (k j : String) (m : Map StoredVersion)
    → (j == k) ≡ false
    → Map.get k (Map.remove j m) ≡ Map.get k m
remove_elsewhere k j m e = get-remove j k m ∙ ap (λ t. if t then none else Map.get k m) e

active_of :
    (c : String) (n : ClientStorageEnvironment) (v : StoredVersion)
    → is_active_in c n v ≡ true
    → in_state ConfigurationVersionState.active v ≡ true
active_of c n v h = ground (arith, h)

module _ (to_lower_case : List ℕ → List ℕ) where
  change-KeepsHistory :
      (r : Request) (m m' : Map StoredVersion)
      → Change to_lower_case r m m'
      → IsFresh r m
      → KeepsHistory m m'
  change-KeepsHistory r m m' (same e) fresh k v held fixed =
      (v, ap (Map.get k) e ∙ held, untouched refl)
  change-KeepsHistory r m m' (added j x n d e) fresh k v held fixed = (
    v,
    ap (Map.get k) e
        ∙ put_elsewhere k j x m (unused_key k j m v (subst (λ o. IsUnused o m) n fresh) held)
        ∙ held,
    untouched refl,
  )
  change-KeepsHistory r m m' (replaced j old x g d d' e) fresh k v held fixed = (
    v,
    ap (Map.get k) e ∙ put_elsewhere k j x m (other_key k j m v old g d held fixed) ∙ held,
    untouched refl,
  )
  change-KeepsHistory r m m' (deleted j old g d e) fresh k v held fixed = (
    v,
    ap (Map.get k) e ∙ remove_elsewhere k j m (other_key k j m v old g d held fixed) ∙ held,
    untouched refl,
  )
  change-KeepsHistory r m m' (activated_draft j now x g d valid e) fresh k v held fixed =
      let test = is_active_in x.client_id x.snapshot.environment in
      let others = Map.update_first test (supersede now) m in
      let y : StoredVersion = record x { snapshot = activated now x.snapshot } in
      let there_still =
        ap (Map.get k) e ∙ put_elsewhere k j y others (other_key k j m v x g d held fixed) in
      elim (get-update_first test (supersede now) k m v held) [
        | inl kept ↦ (v, there_still ∙ kept, untouched refl)
        | inr (was_active, changed) ↦ (
          supersede now v,
          there_still ∙ changed,
          superseded_by now (active_of x.client_id x.snapshot.environment v was_active) refl,
        )
      ]

  -- Every request of the list names a new id that no stored version has when it arrives.
  abbrev pub AllFresh : List Request → ConfigurationStore → Type 0
  AllFresh [] s = Unit
  AllFresh (r ∷ rest) s = IsFresh r s.versions × AllFresh rest (handle to_lower_case r s)

  Kept-Kept : (v w x : StoredVersion) → Kept v w → Kept w x → Kept v x
  Kept-Kept v w x (untouched e) k = subst (λ t. Kept t x) e k
  Kept-Kept v w x (superseded_by now a e) (untouched e') = superseded_by now a (e' ∙ e)
  Kept-Kept v w x (superseded_by now a e) (superseded_by now' a' e') =
      absurd (ground (arith, ap (in_state ConfigurationVersionState.active) e, a'))

  Kept-fixed :
      (v w : StoredVersion)
      → Kept v w
      → in_state ConfigurationVersionState.draft v ≡ false
      → in_state ConfigurationVersionState.draft w ≡ false
  Kept-fixed v w (untouched e) h = ap (in_state ConfigurationVersionState.draft) e ∙ h
  Kept-fixed v w (superseded_by now a e) h = ap (in_state ConfigurationVersionState.draft) e

  after_all :
      (requests : List Request) (s : ConfigurationStore)
      → AllFresh requests s
      → KeepsHistory s.versions (handle_all to_lower_case requests s).versions
  unfolding handle_all
  after_all [] s fresh k v held fixed = (v, held, untouched refl)
  after_all (r ∷ rest) s fresh k v held fixed =
      let (w, held', kept) =
        change-KeepsHistory r _ _ (handle-Change to_lower_case r s) fresh.0 k v held fixed in
      let (x, held'', kept') = after_all rest _ fresh.1 k w held' (Kept-fixed v w kept fixed) in
      (x, held'', Kept-Kept v w x kept kept')

  -- Under any requests whose new ids are unused when they arrive, a version that is no draft stays
  -- stored under its id, either the same, or active before and superseded now with its client, id,
  -- environment, number and document as they were.
  pub handle_all-keeps_history :
      (requests : List Request) (s : ConfigurationStore) (k : String) (v : StoredVersion)
      → AllFresh requests s
      → Map.get k s.versions ≡ some v
      → in_state ConfigurationVersionState.draft v ≡ false
      → (w : StoredVersion) × (Map.get k (handle_all to_lower_case requests s).versions ≡ some w)
        × Kept v w
  handle_all-keeps_history requests s k v fresh held fixed =
      after_all requests s fresh k v held fixed
