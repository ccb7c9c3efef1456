-- ===== src/Prelude/Sort.antt =====
-- `array.sort((left, right) => key(right) - key(left))`: stable, the greatest key first.
use Prim.Native.Nat.{ℕ, ◌≤◌}
use mathlib.Core.Path.{◌≡◌, refl, sym, ap, subst, ◌∙◌}
use mathlib.Core.Logic.{inl, inr, ◌≢◌}
use native.Mathlib.Nat.{le_refl}
use mathlib.Core.Option.{Option, none, some}
use mathlib.Core.List.{List, [], ◌∷◌}
use native.Mathlib.Omega.{arith}
use z_s_app.Prelude.Tests.{leb, if◌then◌else◌, Bool-cases, Option-cases}
use z_s_app.Prelude.Lists.{head?, All, Holds, here, there}

module _ {ℓ} {A : Type ℓ} (key : A → ℕ) where
  unfoldable pub insert_desc : A → List A → List A
  insert_desc x [] = x ∷ []
  insert_desc x (y ∷ l) =
      let later = y ∷ insert_desc x l in if leb (key y) (key x) then x ∷ y ∷ l else later

  unfoldable pub sort_desc : List A → List A
  unfolding insert_desc
  sort_desc [] = []
  sort_desc (x ∷ l) = insert_desc x (sort_desc l)

  -- Everything in the list is at most the bound.
  abbrev pub AtMost : ℕ → List A → Type 0
  AtMost n l = All (λ y. key y ≤ n) l

  -- the first of the greatest keys
  abbrev pick : A → Option A → Option A
  pick x none = some x
  pick x (some y) = if leb (key y) (key x) then some x else some y

  greatest : List A → Option A
  greatest [] = none
  greatest (x ∷ l) = pick x (greatest l)

  head?-insert_desc : (x : A) (l : List A) → head? (insert_desc x l) ≡ pick x (head? l)
  unfolding insert_desc
  head?-insert_desc x [] = refl
  head?-insert_desc x (y ∷ l) = ground arith

  head?-sort_desc : (l : List A) → head? (sort_desc l) ≡ greatest l
  unfolding sort_desc greatest
  head?-sort_desc [] = refl
  head?-sort_desc (x ∷ l) = head?-insert_desc x (sort_desc l) ∙ ap (pick x) (head?-sort_desc l)

  AtMost-trans : (m n : ℕ) (l : List A) → m ≤ n → AtMost m l → AtMost n l
  AtMost-trans m n [] h k = tt
  AtMost-trans m n (y ∷ l) h k = (omega (arith, k.0), AtMost-trans m n l h k.1)

  greatest-none : (l : List A) → greatest l ≡ none → l ≡ []
  unfolding greatest
  greatest-none [] h = refl
  greatest-none (x ∷ l) h = elim (Option-cases (greatest l)) [
    | inl e ↦ absurd (none_ne_some x (sym h ∙ ap (pick x) e))
    | inr (y, e) ↦ ground (arith, e)
  ]
    where
      none_ne_some : (a : A) → none ≢ some a
      none_ne_some a h = cc

  greatest-some :
      (l : List A) (r : A) → greatest l ≡ some r → Holds (λ x. x ≡ r) l × AtMost (key r) l
  unfolding greatest
  greatest-some [] r h = cc
  greatest-some (x ∷ l) r h = elim (Option-cases (greatest l)) [
    | inl e ↦
        let first : x ≡ r = ground (arith, e) in
        let empty : l ≡ [] = greatest-none l e in
        (here first, (rw first (le_refl (key r)), rw empty tt))
    | inr (y, e) ↦
        let (held, most) = greatest-some l y e in
        elim (Bool-cases (leb (key y) (key x))) [
          | inl le ↦
              let first : x ≡ r = ground (arith, e, le) in
              (
                here first,
                (
                  rw first (le_refl (key r)),
                  subst (λ t. AtMost (key t) l) first
                      (AtMost-trans (key y) (key x) l (ground arith) most),
                ),
              )
          | inr gt ↦
              let later : y ≡ r = ground (arith, e, gt) in
              subst (λ t. Holds (λ x'. x' ≡ t) (x ∷ l) × AtMost (key t) (x ∷ l)) later
                (there held, (ground arith, most))
        ]
  ]

  -- What is taken from the sorted list is in the list, and no key is greater.
  pub head?-sort_desc-some :
      (l : List A) (r : A) → head? (sort_desc l) ≡ some r → Holds (λ x. x ≡ r) l × AtMost (key r) l
  head?-sort_desc-some l r h = greatest-some l r (sym (head?-sort_desc l) ∙ h)
