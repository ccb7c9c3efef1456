-- ===== src/Prelude/Lists.antt =====
-- Lists over the native numbers, and the array methods that the source calls.
use Prim.Native.Nat.{ℕ, zero, suc, ◌+◌}
use Prim.Native.Char.{code}
use Prim.Native.String.{String}
use mathlib.Core.Path.{◌≡◌, refl, sym, subst, ◌∙◌}
use mathlib.Core.Logic.{inl, inr}
use mathlib.Core.Bool.{Bool, true, false, ◌&&◌, ◌||◌, false≢true}
use mathlib.Core.Option.{Option, none, some}
use mathlib.Core.List.{List, [], ◌∷◌, ◌++◌}
use native.Mathlib.Omega.{arith}
use z_s_app.Prelude.Tests.{if◌then◌else◌, Bool-cases}

-- The code points of a text. `String` has its own `[]` and `∷`.
abbrev pub codes : String → List ℕ
codes String.[] = []
codes (String.◌∷◌ c s) = code c ∷ codes s

module _ {ℓ} {A : Type ℓ} where
  abbrev pub length : List A → ℕ
  length [] = 0
  length (x ∷ xs) = suc (length xs)

  abbrev pub get_elem? : List A → ℕ → Option A
  get_elem? [] i = none
  get_elem? (x ∷ xs) zero = some x
  get_elem? (x ∷ xs) (suc i) = get_elem? xs i

  -- `array[0]`
  abbrev pub head? : List A → Option A
  head? [] = none
  head? (x ∷ xs) = some x

  -- `array.filter(test)`
  unfoldable pub filter : (A → Bool) → List A → List A
  filter test [] = []
  filter test (x ∷ xs) = let rest = filter test xs in if test x then x ∷ rest else rest

  -- `array.find(test)`
  unfoldable pub find : (A → Bool) → List A → Option A
  find test [] = none
  find test (x ∷ xs) = if test x then some x else find test xs

  -- `array.some(test)` and `array.every(test)`
  abbrev pub any : (A → Bool) → List A → Bool
  any test [] = false
  any test (x ∷ xs) = test x || any test xs

  abbrev pub every : (A → Bool) → List A → Bool
  every test [] = true
  every test (x ∷ xs) = test x && every test xs

  abbrev pub All {κ} : (A → Type κ) → List A → Type κ
  All P [] = Unit
  All P (x ∷ xs) = P x × All P xs

  -- `Holds P l` picks an element of the list that satisfies `P`.
  pub data Holds {κ} (P : A → Type κ) : List A → Type (ℓ ⊔ κ) where
    here : {x : A} {xs : List A} → P x → Holds P (x ∷ xs)
    there : {x : A} {xs : List A} → Holds P xs → Holds P (x ∷ xs)

  pub length-append : (xs ys : List A) → length (xs ++ ys) ≡ length xs + length ys
  length-append [] ys = omega arith
  length-append (x ∷ xs) ys = omega (arith, length-append xs ys)

module _ {ℓ} {A : Type ℓ} where
  pub Holds-filter :
      (test : A → Bool) (l : List A) (r : A)
      → Holds (λ x. x ≡ r) (filter test l)
      → Holds (λ x. x ≡ r) l × (test r ≡ true)
  unfolding filter
  Holds-filter test [] r h = (h, elim h [ ])
  Holds-filter test (x ∷ l) r h = elim (Bool-cases (test x)) [
    | inl e ↦ first e (Holds-filter test l r) (rw e at h)
    | inr e ↦ let (a, b) = Holds-filter test l r (rw e at h) in (there a, b)
  ]
    where
      first :
          test x ≡ true
          → (Holds (λ y. y ≡ r) (filter test l) → Holds (λ y. y ≡ r) l × (test r ≡ true))
          → Holds (λ y. y ≡ r) (x ∷ filter test l)
          → Holds (λ y. y ≡ r) (x ∷ l) × (test r ≡ true)
      first e later (here p) = (here p, rw p at e)
      first e later (there k) = let (a, b) = later k in (there a, b)

  -- What holds of all that passes the test.
  pub All-of_filter {κ} :
      (P : A → Type κ) (test : A → Bool) (l : List A)
      → All P (filter test l)
      → All (λ x. test x ≡ true → P x) l
  unfolding filter
  All-of_filter P test [] h = tt
  All-of_filter P test (x ∷ l) h = elim (Bool-cases (test x)) [
    | inl e ↦ let k = rw e at h in ((λ _. k.0), All-of_filter P test l k.1)
    | inr e ↦ ((λ t. absurd (false≢true (sym e ∙ t))), All-of_filter P test l (rw e at h))
  ]

module _ {ℓ} {A : Type ℓ} where
  pub All-Holds {κ} : (P : A → Type κ) (l : List A) (r : A) → All P l → Holds (λ x. x ≡ r) l → P r
  All-Holds P [] r h m = elim m [ ]
  All-Holds P (x ∷ l) r h (here e) = subst P e h.0
  All-Holds P (x ∷ l) r h (there k) = All-Holds P l r h.1 k

  pub some_same : (a b : A) → some a ≡ some b → a ≡ b
  some_same a b h = cc

  -- What `find` returns is in the list and passes the test.
  pub find-some :
      (test : A → Bool) (l : List A) (r : A)
      → find test l ≡ some r
      → Holds (λ x. x ≡ r) l × (test r ≡ true)
  unfolding find
  find-some test [] r h = cc
  find-some test (x ∷ l) r h = elim (Bool-cases (test x)) [
    | inl e ↦ let same = some_same x r (rw e at h) in (here same, rw same at e)
    | inr e ↦ let (a, b) = find-some test l r (rw e at h) in (there a, b)
  ]

  pub filter-filter :
      (f g : A → Bool) (l : List A) → filter f (filter g l) ≡ filter (λ x. g x && f x) l
  unfolding filter
  filter-filter f g [] = refl
  filter-filter f g (x ∷ l) = elim (Bool-cases (g x)) [
    | inl e ↦ rw (e, filter-filter f g l)
    | inr e ↦ rw (e, filter-filter f g l)
  ]

  pub filter-single :
      (test : A → Bool) (l : List A) (r : A) → filter test l ≡ r ∷ [] → test r ≡ true
  filter-single test l r h =
      let e : Holds (λ x. x ≡ r) (filter test l) = rw h (here refl) in (Holds-filter test l r e).1
