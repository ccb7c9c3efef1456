-- ===== src/Prefix/Keys.antt =====
-- src/prefix-authorizer.ts: what `objectKeyMatchesPattern` accepts, described without `split`.
use mathlib.Core.List.{append-nil, append_assoc}
use z_s_app.Prelude.{
  ℕ, ◌≡◌, refl, sym, ap, ◌∙◌, ◌≢◌, ◌↔◌, inl, inr, true, false, List, [], ◌∷◌, ◌++◌, arith, nat_beq,
  any, All, Bool-cases,
}
use z_s_app.Prefix.{includes, codes_beq, split_from}

abbrev pub Without : ℕ → List ℕ → Type 0
Without c s = All (λ d. d ≢ c) s

-- the segments after the first one, each behind its slash
abbrev pub tails : List (List ℕ) → List ℕ
tails [] = []
tails (y ∷ r) = b'/' ∷ (y ++ tails r)

abbrev pub join : List (List ℕ) → List ℕ
join [] = []
join (x ∷ r) = x ++ tails r

-- A segment that names an entry of its own directory.
pub record IsPlain (x : List ℕ) : Type 0 where
  pub no_slash : Without b'/' x
  pub not_dot : x ≢ b'.' ∷ []
  pub not_dot_dot : x ≢ b'.' ∷ b'.' ∷ []

-- A relative key whose segments are all plain.
pub record IsSafeKey (key : List ℕ) : Type 0 where
  pub nonempty : key ≢ []
  pub no_backslash : Without 92 key
  pub relative : (rest : List ℕ) → key ≢ b'/' ∷ rest
  pub segments : List (List ℕ)
  pub plain : All IsPlain segments
  pub joined : join segments ≡ key

pub includes_iff : (c : ℕ) (s : List ℕ) → (includes c s ≡ false) ↔ Without c s
includes_iff c [] = (λ _. tt, λ _. refl)
includes_iff c (d ∷ s) = (
  (λ h. (ground arith, (includes_iff c s).0 (ground arith))),
  (λ h. ground (arith, (includes_iff c s).1 h.1, h.0)),
)

pub codes_beq_iff : (s t : List ℕ) → (codes_beq s t ≡ true) ↔ (s ≡ t)
codes_beq_iff [] [] = (λ _. refl, λ _. refl)
codes_beq_iff [] (d ∷ t) = (λ h. cc, λ h. cc)
codes_beq_iff (c ∷ s) [] = (λ h. cc, λ h. cc)
codes_beq_iff (c ∷ s) (d ∷ t) =
    ((λ h. ground (arith, (codes_beq_iff s t).0)), (λ h. ground (arith, (codes_beq_iff s t).1)))

pub any_codes_iff :
    (x : List ℕ) (l : List (List ℕ)) → (any (codes_beq x) l ≡ false) ↔ All (λ y. y ≢ x) l
any_codes_iff x [] = (λ _. tt, λ _. refl)
any_codes_iff x (y ∷ l) = (
  (λ h.
      ((λ e. ground (arith, (codes_beq_iff x y).1 (sym e))), (any_codes_iff x l).0 (ground arith))),
  (λ h. elim (Bool-cases (codes_beq x y)) [
    | inl e ↦ absurd (h.0 (sym ((codes_beq_iff x y).0 e)))
    | inr e ↦ rw e ((any_codes_iff x l).1 h.1)
  ]),
)

-- Splitting loses nothing.
pub tails-split_from : (cur s : List ℕ) → tails (split_from cur s) ≡ b'/' ∷ (cur ++ s)
unfolding split_from
tails-split_from cur [] = rw append-nil
tails-split_from cur (c ∷ s) = elim (Bool-cases (nat_beq c b'/')) [
  | inl e ↦ rw e (ap (λ t. b'/' ∷ (cur ++ t)) (tails-split_from [] s ∙ ground arith))
  | inr e ↦
      rw e (tails-split_from (cur ++ c ∷ []) s ∙ ap (λ t. b'/' ∷ t) (append_assoc cur (c ∷ []) s))
]

Without-append : (c : ℕ) (s : List ℕ) (d : ℕ) → Without c s → d ≢ c → Without c (s ++ d ∷ [])
Without-append c [] d h n = (n, tt)
Without-append c (e ∷ s) d h n = (h.0, Without-append c s d h.1 n)

pub split_from-Without : (cur s : List ℕ) → Without b'/' cur → All (Without b'/') (split_from cur s)
unfolding split_from
split_from-Without cur [] h = (h, tt)
split_from-Without cur (c ∷ s) h = elim (Bool-cases (nat_beq c b'/')) [
  | inl e ↦ rw e (h, split_from-Without [] s tt)
  | inr e ↦ rw e (split_from-Without (cur ++ c ∷ []) s (Without-append b'/' cur c h (ground arith)))
]

-- The segments of a key are determined by it.
pub split_from-tails :
    (r : List (List ℕ)) (cur x : List ℕ)
    → Without b'/' x
    → All (Without b'/') r
    → split_from cur (x ++ tails r) ≡ (cur ++ x) ∷ r
unfolding split_from
split_from-tails [] cur [] h k = rw append-nil
split_from-tails (y ∷ r) cur [] h k =
    rw append-nil (ap (λ t. cur ∷ t) (split_from-tails r [] y k.0 k.1))
split_from-tails r cur (c ∷ x) h k =
    let e : nat_beq c b'/' ≡ false = ground (arith, h.0) in
    rw e
      (split_from-tails r (cur ++ c ∷ []) x h.1 k ∙ ap (λ t. t ∷ r) (append_assoc cur (c ∷ []) x))
