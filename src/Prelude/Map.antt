-- ===== src/Prelude/Map.antt =====
-- A JavaScript `Map` with text keys: its entries, in the order of insertion.
pub mod Counts
use mathlib.Core.Path.{◌≡◌, refl, sym}
use Prim.Native.Nat.{ℕ, ◌+◌, ◌≤◌}
use Prim.Native.String.{String}
use mathlib.Core.Logic.{◌⊎◌, inl, inr}
use mathlib.Core.Bool.{Bool, true, false}
use mathlib.Core.Option.{Option, none, some}
use mathlib.Core.List.{List, [], ◌∷◌}
use native.Mathlib.Omega.{arith}
use text.Mathlib.TextEquality.{eq_iff}
use z_s_app.Prelude.Tests.{◌==◌, string_eq, if◌then◌else◌, Bool-cases}

abbrev pub Map {ℓ} : Type ℓ → Type ℓ
Map V = List (String × V)

module _ {ℓ} {V : Type ℓ} where
  unfoldable pub get : String → Map V → Option V
  get k [] = none
  get k ((j, v) ∷ m) = if j == k then some v else get k m

  -- `map.set(k, v)`: in place if the key is there, else at the end
  unfoldable pub put : String → V → Map V → Map V
  put k v [] = (k, v) ∷ []
  put k v ((j, w) ∷ m) = let later = (j, w) ∷ put k v m in if j == k then (j, v) ∷ m else later

  unfoldable pub remove : String → Map V → Map V
  remove k [] = []
  remove k ((j, w) ∷ m) = let later = remove k m in if j == k then later else (j, w) ∷ later

  abbrev pub values : Map V → List V
  values [] = []
  values ((j, v) ∷ m) = v ∷ values m

  -- the first value that passes is changed in place
  unfoldable pub update_first : (V → Bool) → (V → V) → Map V → Map V
  update_first test f [] = []
  update_first test f ((j, v) ∷ m) =
      let later = (j, v) ∷ update_first test f m in if test v then (j, f v) ∷ m else later

  pub get-put :
      (k j : String) (v : V) (m : Map V) → get j (put k v m) ≡ (if k == j then some v else get j m)
  unfolding get put
  get-put k j v [] = refl
  get-put k j v ((i, w) ∷ m) = ground (arith, eq_iff i k, eq_iff i j, eq_iff k j, get-put k j v m)

  pub get-put-other :
      (k j : String) (v : V) (m : Map V) → (k == j) ≡ false → get j (put k v m) ≡ get j m
  get-put-other k j v m e = ground (arith, get-put k j v m, e)

  pub get-remove :
      (k j : String) (m : Map V) → get j (remove k m) ≡ (if k == j then none else get j m)
  unfolding get remove
  get-remove k j [] = ground arith
  get-remove k j ((i, w) ∷ m) = ground (arith, eq_iff i k, eq_iff i j, eq_iff k j, get-remove k j m)

  -- A key keeps its value, or has the changed value and the value passed the test.
  pub get-update_first :
      (test : V → Bool) (f : V → V) (j : String) (m : Map V) (v : V)
      → get j m ≡ some v
      → (get j (update_first test f m) ≡ some v)
        ⊎ ((test v ≡ true) × (get j (update_first test f m) ≡ some (f v)))
  unfolding get update_first
  get-update_first test f j [] v h = cc
  get-update_first test f j ((i, w) ∷ m) v h = elim (Bool-cases (test w)) [
    | inl e ↦ rw e (ground (arith, e))
    | inr e ↦ rw e (ground (arith, get-update_first test f j m v))
  ]

  -- how many values pass
  unfoldable pub count : (V → Bool) → Map V → ℕ
  count test [] = 0
  count test ((j, v) ∷ m) = (if test v then 1 else 0) + count test m

  abbrev pub weight : (V → Bool) → Option V → ℕ
  weight test none = 0
  weight test (some v) = if test v then 1 else 0

  pub count-put :
      (test : V → Bool) (k : String) (v : V) (m : Map V)
      → count test (put k v m) + weight test (get k m) ≡ count test m + (if test v then 1 else 0)
  unfolding count put get
  count-put test k v [] = omega arith
  count-put test k v ((j, w) ∷ m) = ground (arith, count-put test k v m)

  pub count-remove :
      (test : V → Bool) (k : String) (m : Map V) → count test (remove k m) ≤ count test m
  unfolding count remove
  count-remove test k [] = omega arith
  count-remove test k ((j, w) ∷ m) = ground (arith, count-remove test k m)

  pub count-update_first :
      (test : V → Bool) (f : V → V) (m : Map V)
      → ((v : V) → test (f v) ≡ false)
      → count test m ≤ 1
      → count test (update_first test f m) ≡ 0
  unfolding count update_first
  count-update_first test f [] h le = refl
  count-update_first test f ((j, v) ∷ m) h le = elim (Bool-cases (test v)) [
    | inl e ↦ rw e (ground (arith, h v, e))
    | inr e ↦ rw e (ground (arith, e, count-update_first test f m h))
  ]

  pub count-update_first-le :
      (other test : V → Bool) (f : V → V) (m : Map V)
      → ((v : V) → other (f v) ≡ true → other v ≡ true)
      → count other (update_first test f m) ≤ count other m
  unfolding count update_first
  count-update_first-le other test f [] h = omega arith
  count-update_first-le other test f ((j, v) ∷ m) h = elim (Bool-cases (test v)) [
    | inl e ↦ rw e (ground (arith, h v))
    | inr e ↦ rw e (ground (arith, count-update_first-le other test f m h))
  ]

  some_value : (a b : V) → some a ≡ some b → a ≡ b
  some_value a b h = cc

  -- What `update_first` leaves under a key is a value of before, or such a value changed.
  pub get-update_first-cases :
      (test : V → Bool) (f : V → V) (j : String) (m : Map V) (w : V)
      → get j (update_first test f m) ≡ some w
      → (get j m ≡ some w) ⊎ ((v : V) × (w ≡ f v))
  unfolding get update_first
  get-update_first-cases test f j [] w h = cc
  get-update_first-cases test f j ((i, v) ∷ m) w h = elim (Bool-cases (test v)) [
    | inl e ↦ elim (Bool-cases (i == j)) [
      | inl k ↦ inr (v, sym (some_value (f v) w (rw (e, k) at h)))
      | inr k ↦ inl (rw k (rw (e, k) at h))
    ]
    | inr e ↦ elim (Bool-cases (i == j)) [
      | inl k ↦ inl (rw k (rw (e, k) at h))
      | inr k ↦ rw k (get-update_first-cases test f j m w (rw (e, k) at h))
    ]
  ]
