-- ===== src/Capability/Soundness.antt =====
-- src/capability-registry.ts: the policy that `assertReady` returns, and what it rests on.
use z_s_app.Prelude.{
  ◌⊎◌, inl, inr, ℕ, ◌≡◌, refl, sym, ap, ◌∙◌, ◌≢◌, Bool, true, false, ◌||◌, Option, none, some, List,
  [], ◌∷◌, ◌++◌, arith, All, every, ok, bind-eq-ok, ok-injective, fail_if, fail_if-eq-ok, ◌==◌,
  if◌then◌else◌,
}
use z_s_app.Domain.{size, range, CapabilityResultState, capability_result_state_eq}
use z_s_app.Records.{
  StorageProfileProviderBinding, StorageCapabilityResult, HeadContentLength, RangeRead,
  ProviderCapabilityPolicy, CapabilityReadinessInput,
}
use z_s_app.Capability.{
  Scope, is_expired, latest, RangeState, is_passed, range_state_of, strict_required_capabilities,
  current_result, check_strict, check_binding, check_bindings, scope_of, range_read_of,
  assert_ready,
}
use z_s_app.Capability.Readiness.{
  Passed, IsReady, latest-IsLatest, not_expired, current_result-Shows, Shows-map,
  check_strict-Passed,
}

range_state_of-passed :
    (now : ℕ) (o : Option StorageCapabilityResult)
    → range_state_of now o ≡ ok RangeState.passed
    → (r : StorageCapabilityResult) × (o ≡ some r)
      × (is_expired now r.expires_at ≡ false)
      × (r.result ≡ CapabilityResultState.passed)
range_state_of-passed now none h = cc
range_state_of-passed now (some r) h = (r, refl, ground arith, ground arith)

size_cases :
    (o : CapabilityResultState)
    → o ≢ CapabilityResultState.failed
    → (o == CapabilityResultState.not_supported) ≡ false
    → o ≡ CapabilityResultState.passed
size_cases o n h = ground (arith, n)

not_failed :
    (o : CapabilityResultState)
    → (o == CapabilityResultState.failed) ≡ false
    → o ≢ CapabilityResultState.failed
not_failed o h = ground arith

every-append :
    (x : RangeState) (l : List RangeState)
    → every is_passed (l ++ x ∷ []) ≡ true
    → (every is_passed l ≡ true) × (x ≡ RangeState.passed)
every-append x [] h = (refl, ground arith)
every-append x (y ∷ l) h = let (a, b) = every-append x l (ground arith) in (ground arith, b)

module _ (results : List StorageCapabilityResult) (now : ℕ) where
  check_binding-IsReady :
      (s : Scope) (unsupported : Bool) (state : RangeState)
      → check_binding results now s ≡ ok (unsupported, state)
      → IsReady results now s
        × (unsupported ≡ false → Passed results now s size)
        × (state ≡ RangeState.passed → Passed results now s range)
  unfolding check_binding
  check_binding-IsReady s unsupported state h =
      let (_, strict, h1) = bind-eq-ok (check_strict results now s _) _ h in
      let (r, found, h2) = bind-eq-ok (current_result results now s size) _ h1 in
      let (_, unfailed, h3) = bind-eq-ok (fail_if _ _) _ h2 in
      let (st, ranged, h4) = bind-eq-ok (range_state_of now _) _ h3 in
      let same = ok-injective _ _ h4 in
      let sized = current_result-Shows results now s size r found in
      let n = not_failed r.result (fail_if-eq-ok _ _ unfailed) in
      (
        record {
          strict = check_strict-Passed results now s strict_required_capabilities strict;
          sized = Shows-map results now _ _ (λ o p. λ e. n (sym p ∙ e)) sized;
        },
        (λ u.
            Shows-map results now _ _ (λ o p. p ∙ size_cases r.result n (ap (λ t. t.0) same ∙ u))
              sized),
        (λ p.
            let (x, is, fresh, passed) =
              range_state_of-passed now (latest results s range)
                (ranged ∙ ap ok (ap (λ t. t.1) same ∙ p)) in
            record {
              result = x;
              is_latest = latest-IsLatest results s range x is;
              unexpired = not_expired results now x.expires_at fresh;
              outcome = passed;
            }),
      )

  module _ (input : CapabilityReadinessInput) where
    check_bindings-IsReady :
        (u u' : Bool) (states states' : List RangeState) (bs : List StorageProfileProviderBinding)
        → check_bindings results now input u states bs ≡ ok (u', states')
        → All (λ b. IsReady results now (scope_of input b)) bs
          × (u' ≡ false → (u ≡ false) × All (λ b. Passed results now (scope_of input b) size) bs)
          × (every is_passed states' ≡ true
              → (every is_passed states ≡ true)
                × All (λ b. Passed results now (scope_of input b) range) bs)
    unfolding check_bindings
    check_bindings-IsReady u u' states states' [] h =
        let same = ok-injective _ _ h in
        (
          tt,
          (λ e. (ap (λ t. t.0) same ∙ e, tt)),
          (λ e. (ap (λ t. every is_passed (t.1)) same ∙ e, tt)),
        )
    check_bindings-IsReady u u' states states' (b ∷ bs) h =
        let (found, checked, h1) = bind-eq-ok (check_binding results now (scope_of input b)) _ h in
        let (ready, sized, ranged) =
          check_binding-IsReady (scope_of input b) found.0 found.1 checked in
        let (later, sizes, ranges) =
          check_bindings-IsReady (u || found.0) u' (states ++ found.1 ∷ []) states' bs h1 in
        (
          (ready, later),
          (λ e.
              let (a, all) = sizes e in (or_left u found.0 a, (sized (or_right u found.0 a), all))),
          (λ e.
              let (a, all) = ranges e in
              let (before, here) = every-append found.1 states a in (before, (ranged here, all))),
        )
      where
        or_left : (a b : Bool) → (a || b) ≡ false → a ≡ false
        or_left a b h = ground arith

        or_right : (a b : Bool) → (a || b) ≡ false → b ≡ false
        or_right a b h = ground arith

head_required :
    (b : Bool)
    → (if b then HeadContentLength.optional_with_checksum else HeadContentLength.required)
      ≡ HeadContentLength.required
    → b ≡ false
head_required b h = ground arith

range_required :
    (l : List RangeState) → range_read_of l ≡ RangeRead.required → every is_passed l ≡ true
range_required l h = ground arith

optional_or :
    {P : Type 0} (x : HeadContentLength)
    → (x ≡ HeadContentLength.required → P)
    → (x ≡ HeadContentLength.optional_with_checksum) ⊎ P
optional_or HeadContentLength.required f = inr (f refl)
optional_or HeadContentLength.optional_with_checksum f = inl refl

not_read_or :
    {P : Type 0} (x : RangeRead)
    → (x ≡ RangeRead.required → P)
    → (x ≡ RangeRead.optional) ⊎ (x ≡ RangeRead.not_applicable) ⊎ P
not_read_or RangeRead.required f = inr (inr (f refl))
not_read_or RangeRead.optional f = inl refl
not_read_or RangeRead.not_applicable f = inr (inl refl)

-- A deployment is found ready only if, for each binding, the latest result of each required
-- capability has passed, the latest result on sizes has not failed, and none of them has expired
-- or is missing. Either the policy leaves the content length optional, or each binding has passed on
-- sizes; and either it does not require range reads, or each binding has passed on ranges.
pub assert_ready_sound :
    (results : List StorageCapabilityResult) (now : ℕ) (input : CapabilityReadinessInput)
    (policy : ProviderCapabilityPolicy)
    → assert_ready results now input ≡ ok policy
    → All (λ b. IsReady results now (scope_of input b)) input.bindings
      × ((policy.head_content_length ≡ HeadContentLength.optional_with_checksum)
          ⊎ All (λ b. Passed results now (scope_of input b) size) input.bindings)
      × ((policy.range_read ≡ RangeRead.optional)
          ⊎ (policy.range_read ≡ RangeRead.not_applicable)
          ⊎ All (λ b. Passed results now (scope_of input b) range) input.bindings)
unfolding assert_ready
assert_ready_sound results now input policy h =
    let (found, checked, h1) =
      bind-eq-ok (check_bindings results now input false [] input.bindings) _ h in
    let same = ok-injective _ policy h1 in
    let (ready, sizes, ranges) =
      check_bindings-IsReady results now input false found.0 [] found.1 input.bindings checked in
    (
      ready,
      optional_or policy.head_content_length
          (λ e. (sizes (head_required found.0 (ap (λ p. p.head_content_length) same ∙ e))).1),
      not_read_or policy.range_read
          (λ e. (ranges (range_required found.1 (ap (λ p. p.range_read) same ∙ e))).1),
    )
