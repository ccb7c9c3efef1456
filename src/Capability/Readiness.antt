-- ===== src/Capability/Readiness.antt =====
-- src/capability-registry.ts: what a deployment that is found ready has passed.
use z_s_app.Prelude.{
  ℕ, ◌≤◌, ◌<◌, ◌≡◌, refl, ap, ◌∙◌, ◌≢◌, true, false, not, Option, none, some, List, [], ◌∷◌, arith,
  Bool-cases, inl, inr, ok-injective, All, Holds, Holds-filter, All-of_filter, head?-sort_desc-some,
  Result, ok, err, bind-eq-ok, fail_if, fail_if-eq-ok, ◌==◌,
}
use z_s_app.Domain.{
  Capability, size, CapabilityResultState, ControlPlaneErrorCode, capability_expired,
  capability_result_state_eq,
}
use z_s_app.Records.{StorageCapabilityResult}
use z_s_app.Capability.{
  Scope, in_scope, is_expired, latest, unexpired, strict_required_capabilities, current_result,
  check_strict,
}

-- `r` is among the results, in the scope, and no other result of the scope is newer.
pub record IsLatest (results : List StorageCapabilityResult) (s : Scope) (c : Capability)
    (r : StorageCapabilityResult) : Type 0 where
  pub recorded : Holds (λ x. x ≡ r) results
  pub scoped : in_scope s c r ≡ true
  pub newest : All (λ x. in_scope s c x ≡ true → x.verified_at ≤ r.verified_at) results

-- The latest result of the capability has this outcome, and has not expired.
pub record Shows (results : List StorageCapabilityResult) (now : ℕ) (s : Scope) (c : Capability)
    (P : CapabilityResultState → Type 0) : Type 0 where
  pub result : StorageCapabilityResult
  pub is_latest : IsLatest results s c result
  pub unexpired : (t : ℕ) → result.expires_at ≡ some t → now < t
  pub outcome : P result.result

module _ (results : List StorageCapabilityResult) where
  pub latest-IsLatest :
      (s : Scope) (c : Capability) (r : StorageCapabilityResult)
      → latest results s c ≡ some r
      → IsLatest results s c r
  unfolding latest
  latest-IsLatest s c r h =
      let (held, most) = head?-sort_desc-some (λ x. x.verified_at) _ r h in
      let (recorded, scoped) = Holds-filter (in_scope s c) results r held in
      record {
        recorded = recorded;
        scoped = scoped;
        newest = All-of_filter (λ x. x.verified_at ≤ r.verified_at) (in_scope s c) results most;
      }

  module _ (now : ℕ) where
    pub not_expired : (o : Option ℕ) → is_expired now o ≡ false → (t : ℕ) → o ≡ some t → now < t
    not_expired none h t e = cc
    not_expired (some u) h t e = ground (arith, e)

    unexpired-eq-ok :
        (o : Option StorageCapabilityResult) (r : StorageCapabilityResult)
        → unexpired now o ≡ ok r
        → (o ≡ some r) × (is_expired now r.expires_at ≡ false)
    unexpired-eq-ok none r h = cc
    unexpired-eq-ok (some x) r h = elim (Bool-cases (is_expired now x.expires_at)) [
      | inl e ↦ absurd (err_ne_ok (rw e at h))
      | inr e ↦ let same = ok-injective x r (rw e at h) in (ap some same, rw (← same) e)
    ]
      where
        err_ne_ok :
            ◌≢◌ {A = Result ControlPlaneErrorCode StorageCapabilityResult}
              (err capability_expired)
              (ok r)
        err_ne_ok p = cc

    -- The result that the readiness test reads is the latest one of its scope, and unexpired.
    pub current_result-Shows :
        (s : Scope) (c : Capability) (r : StorageCapabilityResult)
        → current_result results now s c ≡ ok r
        → Shows results now s c (λ o. o ≡ r.result)
    unfolding current_result
    current_result-Shows s c r h =
        let (found, fresh) = unexpired-eq-ok (latest results s c) r h in
        record {
          result = r;
          is_latest = latest-IsLatest s c r found;
          unexpired = not_expired r.expires_at fresh;
          outcome = refl;
        }

    pub Shows-map :
        {s : Scope} {c : Capability} (P Q : CapabilityResultState → Type 0)
        → ((o : CapabilityResultState) → P o → Q o)
        → Shows results now s c P
        → Shows results now s c Q
    Shows-map P Q f h = record {
      result = h.result;
      is_latest = h.is_latest;
      unexpired = h.unexpired;
      outcome = f h.result.result h.outcome;
    }

    abbrev pub Passed : Scope → Capability → Type 0
    Passed s c = Shows results now s c (λ o. o ≡ CapabilityResultState.passed)

    -- A binding that stays in the loop.
    pub record IsReady (s : Scope) : Type 0 where
      pub strict : All (Passed s) strict_required_capabilities
      pub sized : Shows results now s size (λ o. o ≢ CapabilityResultState.failed)

    not-is :
        (o : CapabilityResultState)
        → not (o == CapabilityResultState.passed) ≡ false
        → o ≡ CapabilityResultState.passed
    not-is o h = ground arith

    pub check_strict-Passed :
        (s : Scope) (cs : List Capability) {u : Unit {0}}
        → check_strict results now s cs ≡ ok u
        → All (Passed s) cs
    unfolding check_strict
    check_strict-Passed s [] h = tt
    check_strict-Passed s (c ∷ cs) h =
        let (r, found, h1) = bind-eq-ok (current_result results now s c) _ h in
        let (v, passed, h2) = bind-eq-ok (fail_if _ _) _ h1 in
        let e = not-is r.result (fail_if-eq-ok _ _ passed) in
        (
          Shows-map _ _ (λ o p. p ∙ e) (current_result-Shows s c r found),
          check_strict-Passed s cs h2,
        )
