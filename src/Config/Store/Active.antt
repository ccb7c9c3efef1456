-- ===== src/Config/Store/Active.antt =====
-- src/client-storage-configuration.ts: a client has at most one active version in an environment.
use mathlib.Core.Bool.{false≢true}
use z_s_app.Prelude.{
  ℕ, ◌+◌, ◌≤◌, String, ◌≡◌, sym, ap, ◌∙◌, Bool, true, false, not, inl, inr, arith, Bool-cases,
  if◌then◌else◌, eq_iff,
}
use z_s_app.Prelude.Map
use z_s_app.Prelude.Map.{Map, count-put, count-remove, count-update_first, count-update_first-le}
use z_s_app.Config.Document.{
  ClientStorageEnvironment, ConfigurationVersionState, client_environment_tag_iff,
  client_environment_eq, version_state_eq,
}
use z_s_app.Config.State.{StoredVersion}
use z_s_app.Config.Store.{in_state, of_scope, is_active_in, supersede, activated}

-- At most one version of each client and environment is active.
abbrev pub IsSingle : Map StoredVersion → Type 0
IsSingle m =
    (client_id : String) (environment : ClientStorageEnvironment)
    → Map.count (is_active_in client_id environment) m ≤ 1

not_active :
    (c : String) (e : ClientStorageEnvironment) (v : StoredVersion)
    → in_state ConfigurationVersionState.draft v ≡ true
    → is_active_in c e v ≡ false
not_active c e v h = ground arith

pub eq_true_of_not : (b : Bool) → not b ≡ false → b ≡ true
eq_true_of_not b h = ground arith

pub put-IsSingle :
    (k : String) (v : StoredVersion) (m : Map StoredVersion)
    → in_state ConfigurationVersionState.draft v ≡ true
    → IsSingle m
    → IsSingle (Map.put k v m)
put-IsSingle k v m d h c e =
    let le : Map.count (is_active_in c e) m ≤ 1 = h c e in
    let inactive : is_active_in c e v ≡ false = not_active c e v d in
    ground (arith, count-put (is_active_in c e) k v m, inactive, le)

superseded_inactive :
    (c : String) (e : ClientStorageEnvironment) (now : ℕ) (v : StoredVersion)
    → is_active_in c e (supersede now v) ≡ false
superseded_inactive c e now v = ground arith

in_scope_of :
    (c : String) (e : ClientStorageEnvironment) (v : StoredVersion)
    → of_scope c e v ≡ true
    → (v.client_id ≡ c) × (v.snapshot.environment ≡ e)
in_scope_of c e v h =
    ground (arith, eq_iff v.client_id c, client_environment_tag_iff v.snapshot.environment e)

out_of_scope :
    (c : String) (e : ClientStorageEnvironment) (v : StoredVersion)
    → of_scope c e v ≡ false
    → is_active_in c e v ≡ false
out_of_scope c e v h = ground arith

at_most_one : (b : Bool) (p q r : ℕ) → p + q ≡ r + (if b then 1 else 0) → r ≡ 0 → p ≤ 1
at_most_one b p q r e z = ground arith

still_one :
    (b : Bool) (p q r n : ℕ) → b ≡ false → p + q ≡ r + (if b then 1 else 0) → r ≤ n → n ≤ 1 → p ≤ 1
still_one b p q r n e f le le' = ground arith

module _ (now : ℕ) (m : Map StoredVersion) (v : StoredVersion) where
  abbrev others : Map StoredVersion
  others = Map.update_first (is_active_in v.client_id v.snapshot.environment) (supersede now) m

  others-le :
      (c : String) (e : ClientStorageEnvironment)
      → Map.count (is_active_in c e) others ≤ Map.count (is_active_in c e) m
  others-le c e =
      count-update_first-le (is_active_in c e) _ (supersede now) m
        (λ w p. absurd (false≢true (sym (superseded_inactive c e now w) ∙ p)))

  pub activate-IsSingle :
      (k : String)
      → IsSingle m
      → IsSingle (Map.put k (record v { snapshot = activated now v.snapshot }) others)
  activate-IsSingle k h c e =
      let w : StoredVersion = record v { snapshot = activated now v.snapshot } in
      let put_count = count-put (is_active_in c e) k w others in
      elim (Bool-cases (of_scope c e v)) [
        | inl inside ↦
            let (same_c, same_e) = in_scope_of c e v inside in
            let none_left : Map.count (is_active_in v.client_id v.snapshot.environment) others ≡ 0 =
              count-update_first _ (supersede now) m
                (superseded_inactive v.client_id v.snapshot.environment now)
                (h v.client_id v.snapshot.environment) in
            let zero_left : Map.count (is_active_in c e) others ≡ 0 =
              ap (λ t. Map.count (is_active_in t e) others) (sym same_c)
              ∙ ap (λ t. Map.count (is_active_in v.client_id t) others) (sym same_e)
              ∙ none_left in
            at_most_one (is_active_in c e w) _ _ _ put_count zero_left
        | inr outside ↦
            let inactive : is_active_in c e w ≡ false = out_of_scope c e w outside in
            still_one (is_active_in c e w) _ _ _ _ inactive put_count (others-le c e) (h c e)
      ]
