-- ===== src/Capability/Recording.antt =====
-- src/capability-registry.ts: recording keeps one result for each identity.
use mathlib.Core.Bool.{false≢true}
use z_s_app.Prelude.{
  ℕ, ◌≡◌, refl, sym, ap, subst, ◌∙◌, ◌≢◌, Bool, true, false, inl, inr, List, [], ◌∷◌, arith,
  Bool-cases, All, find, if◌then◌else◌, Option, some,
}
use z_s_app.Prefix.{codes_beq}
use z_s_app.Prefix.Keys.{codes_beq_iff}
use z_s_app.Records.{StorageCapabilityResult}
use z_s_app.Capability.{result_identity, replace_or_push, record_result}

-- No two results have the same identity.
abbrev pub AreDistinct : List StorageCapabilityResult → Type 0
AreDistinct [] = Unit
AreDistinct (r ∷ rest) = All (λ x. result_identity x ≢ result_identity r) rest × AreDistinct rest

-- the result of that identity
abbrev pub with_identity : List ℕ → List StorageCapabilityResult → Option StorageCapabilityResult
with_identity i results = find (λ r. codes_beq (result_identity r) i) results

module _ (input : StorageCapabilityResult) where
  abbrev same : StorageCapabilityResult → Bool
  same r = codes_beq (result_identity r) (result_identity input)

  All-replace_or_push :
      (i : List ℕ) (l : List StorageCapabilityResult)
      → result_identity input ≢ i
      → All (λ x. result_identity x ≢ i) l
      → All (λ x. result_identity x ≢ i) (replace_or_push same input l)
  unfolding replace_or_push
  All-replace_or_push i [] n h = (n, tt)
  All-replace_or_push i (r ∷ l) n h = elim (Bool-cases (same r)) [
    | inl e ↦ rw e (n, h.1)
    | inr e ↦ rw e (h.0, All-replace_or_push i l n h.1)
  ]

  replace_or_push-AreDistinct :
      (l : List StorageCapabilityResult)
      → AreDistinct l
      → AreDistinct (replace_or_push same input l)
  unfolding replace_or_push
  replace_or_push-AreDistinct [] h = (tt, tt)
  replace_or_push-AreDistinct (r ∷ l) h = elim (Bool-cases (same r)) [
    | inl e ↦ rw e (
      subst (λ i. All (λ x. result_identity x ≢ i) l)
          ((codes_beq_iff (result_identity r) (result_identity input)).0 e) h.0,
      h.1,
    )
    | inr e ↦ rw e (
      All-replace_or_push (result_identity r) l (λ q. differs e q) h.0,
      replace_or_push-AreDistinct l h.1,
    )
  ]
    where
      differs : same r ≡ false → result_identity input ≢ result_identity r
      differs e q = false≢true (sym e ∙ (codes_beq_iff _ _).1 (sym q))

  with_identity-replace_or_push :
      (l : List StorageCapabilityResult) (i : List ℕ)
      → with_identity i (replace_or_push same input l)
        ≡ (if codes_beq (result_identity input) i then some input else with_identity i l)
  unfolding replace_or_push find
  with_identity-replace_or_push [] i = refl
  with_identity-replace_or_push (r ∷ l) i = elim (Bool-cases (same r)) [
    | inl e ↦ rw e (
        over (codes_beq (result_identity input) i) (codes_beq (result_identity r) i)
          (ap (λ t. codes_beq t i) (sym ((codes_beq_iff _ _).0 e))))
    | inr e ↦
        rw (e, with_identity-replace_or_push l i)
          (past (codes_beq (result_identity r) i) (codes_beq (result_identity input) i) (clash e))
  ]
    where
      clash :
          same r ≡ false
          → codes_beq (result_identity r) i ≡ true
          → codes_beq (result_identity input) i ≡ true
          → ⊥
      clash e p q =
          let a = (codes_beq_iff (result_identity r) i).0 p in
          let b = (codes_beq_iff (result_identity input) i).0 q in
          false≢true
            (sym e ∙ (codes_beq_iff (result_identity r) (result_identity input)).1 (a ∙ sym b))

      over :
          (a b : Bool)
          → a ≡ b
          → (if a then some input else with_identity i l)
            ≡ (if a then some input else if b then some r else with_identity i l)
      over a b e = ground arith

      past :
          (b a : Bool)
          → (b ≡ true → a ≡ true → ⊥)
          → (if b then some r else if a then some input else with_identity i l)
            ≡ (if a then some input else if b then some r else with_identity i l)
      past true true n = absurd (n refl refl)
      past true false n = refl
      past false true n = refl
      past false false n = refl

-- Recording a result keeps the identities distinct; afterwards the registry has that result under
-- its identity, and under any other identity the result it had before.
pub record_result_lem :
    (results : List StorageCapabilityResult) (input : StorageCapabilityResult)
    → AreDistinct results
    → AreDistinct (record_result results input)
      × ((i : List ℕ)
          → with_identity i (record_result results input)
            ≡ (if codes_beq (result_identity input) i then some input else with_identity i results))
unfolding record_result
record_result_lem results input h =
    (replace_or_push-AreDistinct input results h, with_identity-replace_or_push input results)
