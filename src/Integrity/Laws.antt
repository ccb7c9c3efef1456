-- ===== src/Integrity/Laws.antt =====
-- src/integrity.ts: what an accepted write has shown.
use mathlib.Core.Bool.{false≢true}
use z_s_app.Prelude.{
  ℕ, String, ◌≡◌, refl, ap, ◌∙◌, ◌↔◌, inl, inr, Bool, true, false, not, Option, none, some, arith,
  eq_iff, ◌==◌, nat_eq, string_eq, Result, ok, err, bind-eq-ok, ok-injective, fail_if,
  fail_if-eq-ok, codes, Bool-cases,
}
use z_s_app.Domain.{ControlPlaneErrorCode}
use z_s_app.Records.{HeadContentLength}
use z_s_app.Prefix.Keys.{IsSafeKey}
use z_s_app.Prefix.Matching.{IsPatternOf}
use z_s_app.Prefix.Authority.{object_key_matches_pattern_iff}
use z_s_app.Integrity.{
  VerifyProviderWriteInput, IntegrityVerificationResult, SizeVerificationDisposition, matched,
  not_supplied, unsupported_with_checksum, verify_checksum, verify_size, lift,
  verify_provider_write,
}

-- The size was compared and is equal, or there was none to compare with.
pub data SizeAgrees (input : VerifyProviderWriteInput) : SizeVerificationDisposition → Type 0 where
  equal :
      (n : ℕ)
      → input.expected_size_bytes ≡ some n
      → input.observed_size_bytes ≡ some n
      → SizeAgrees input matched
  unasked : input.expected_size_bytes ≡ none → SizeAgrees input not_supplied
  unreported :
      (n : ℕ)
      → input.expected_size_bytes ≡ some n
      → input.observed_size_bytes ≡ none
      → input.capability_policy.head_content_length ≡ HeadContentLength.optional_with_checksum
      → SizeAgrees input unsupported_with_checksum

-- What `verifyProviderWrite` has compared.
pub record IsIntact (input : VerifyProviderWriteInput) (result : IntegrityVerificationResult)
    : Type 0 where
  pub provider : input.expected_provider_id ≡ input.observed_provider_id
  pub bucket : input.expected_bucket_label ≡ input.observed_bucket_label
  pub safe_key : IsSafeKey (codes input.object_key)
  pub inside : IsPatternOf (codes input.normalized_prefix_pattern) (codes input.object_key)
  pub checksum : String
  pub expected_checksum : input.expected_checksum ≡ some checksum
  pub observed_checksum : input.observed_checksum ≡ some checksum
  pub size : SizeAgrees input result.size_verification_disposition
  pub size_verified_iff :
      (result.size_verified ≡ true) ↔ (result.size_verification_disposition ≡ matched)

eq_true_of_not : (t : Bool) → not t ≡ false → t ≡ true
eq_true_of_not t e = ground arith

verify_checksum-eq-ok :
    (a b : Option String) {u : Unit {0}}
    → verify_checksum a b ≡ ok u
    → (c : String) × (a ≡ some c) × (b ≡ some c)
unfolding verify_checksum
verify_checksum-eq-ok (some a) (some b) h =
    let same = (eq_iff a b).0 (eq_true_of_not (a == b) (fail_if-eq-ok _ _ h)) in
    (b, ap some same, refl)
verify_checksum-eq-ok (some a) none h = cc
verify_checksum-eq-ok none b h = cc

size_parts :
    (input : VerifyProviderWriteInput) (head : HeadContentLength) (a b : Option ℕ)
    (result : IntegrityVerificationResult)
    → input.capability_policy.head_content_length ≡ head
    → input.expected_size_bytes ≡ a
    → input.observed_size_bytes ≡ b
    → verify_size head a b ≡ ok result
    → SizeAgrees input result.size_verification_disposition
      × ((result.size_verified ≡ true) ↔ (result.size_verification_disposition ≡ matched))
unfolding verify_size
size_parts input head none b result p q r h =
    let same : record { size_verified = false; size_verification_disposition = not_supplied }
        ≡ result =
      ok-injective _ _ h in
    rw (← same) (unasked q, ((λ e. cc), (λ e. cc)))
size_parts input HeadContentLength.optional_with_checksum (some n) none result p q r h =
    rw (← ok-injective _ _ h) (unreported n q r p, ((λ e. cc), (λ e. cc)))
size_parts input HeadContentLength.required (some n) none result p q r h = cc
size_parts input head (some n) (some m) result p q r h = elim (Bool-cases (n == m)) [
  | inl e ↦
      let same = ok-injective _ _ (rw e at h) in
      rw (← same) (equal m (q ∙ ap some (ground (arith, e))) r, ((λ _. refl), (λ _. refl)))
  | inr e ↦ absurd (ground (arith, h, e))
]

lift-eq-ok : (r : Result ControlPlaneErrorCode Bool) {b : Bool} → lift r ≡ ok b → r ≡ ok b
lift-eq-ok (ok a) h = ap ok (ok-injective a _ h)
lift-eq-ok (err e) h = cc

verify_provider_write-IsIntact :
    (input : VerifyProviderWriteInput) (result : IntegrityVerificationResult)
    → verify_provider_write input ≡ ok result
    → IsIntact input result
unfolding verify_provider_write
verify_provider_write-IsIntact input result h =
    let (_, p, h1) = bind-eq-ok (fail_if _ _) _ h in
    let (_, b, h2) = bind-eq-ok (fail_if _ _) _ h1 in
    let (inside, m, h3) = bind-eq-ok (lift _) _ h2 in
    let (_, i, h4) = bind-eq-ok (fail_if _ _) _ h3 in
    let (_, c, h5) =
      bind-eq-ok (verify_checksum input.expected_checksum input.observed_checksum) _ h4 in
    let (checksum, expected, observed) = verify_checksum-eq-ok _ _ c in
    let matched = lift-eq-ok _ m ∙ ap ok (eq_true_of_not inside (fail_if-eq-ok _ _ i)) in
    let (safe, behind) =
      (object_key_matches_pattern_iff input.object_key input.normalized_prefix_pattern).0 matched in
    let (size, iff) = size_parts input _ _ _ result refl refl refl h5 in
    record {
      provider = (eq_iff _ _).0 (eq_true_of_not _ (fail_if-eq-ok _ _ p));
      bucket = (eq_iff _ _).0 (eq_true_of_not _ (fail_if-eq-ok _ _ b));
      safe_key = safe;
      inside = behind;
      checksum = checksum;
      expected_checksum = expected;
      observed_checksum = observed;
      size = size;
      size_verified_iff = iff;
    }

is_equal : (a b : String) → a ≡ b → not (a == b) ≡ false
is_equal a b e = ap not ((eq_iff a b).1 e)

verify_size_of :
    (input : VerifyProviderWriteInput) (verified : Bool) (d : SizeVerificationDisposition)
    → SizeAgrees input d
    → (verified ≡ true) ↔ (d ≡ matched)
    → verify_size input.capability_policy.head_content_length input.expected_size_bytes
        input.observed_size_bytes
      ≡ ok (record { size_verified = verified; size_verification_disposition = d })
unfolding verify_size
verify_size_of input true d (equal n e o) iff = rw (e, o) (ground arith)
verify_size_of input false d (equal n e o) iff = absurd (false≢true (iff.1 refl))
verify_size_of input true d (unasked e) iff = absurd (ground (arith, iff.0 refl))
verify_size_of input false d (unasked e) iff = rw e
verify_size_of input true d (unreported n e o p) iff = absurd (ground (arith, iff.0 refl))
verify_size_of input false d (unreported n e o p) iff = rw (e, o, p)

IsIntact-verify_provider_write :
    (input : VerifyProviderWriteInput) (result : IntegrityVerificationResult)
    → IsIntact input result
    → verify_provider_write input ≡ ok result
unfolding verify_provider_write verify_checksum
IsIntact-verify_provider_write input result h =
    rw
      (
        is_equal _ _ h.provider,
        is_equal _ _ h.bucket,
        (object_key_matches_pattern_iff input.object_key input.normalized_prefix_pattern).1
            (h.safe_key, h.inside),
        h.expected_checksum,
        h.observed_checksum,
        is_equal h.checksum h.checksum refl,
      )
      (verify_size_of input result.size_verified result.size_verification_disposition h.size
        h.size_verified_iff)

-- A provider write is accepted with a result exactly when the provider and the bucket are the
-- expected ones, the key is safe and lies behind the pattern's prefix, both checksums are there and
-- equal, and the sizes are equal, or none was expected, or none was observed and the policy allows
-- that; the result says which, and that the size was verified exactly in the first case.
pub verify_provider_write_iff :
    (input : VerifyProviderWriteInput) (result : IntegrityVerificationResult)
    → (verify_provider_write input ≡ ok result) ↔ IsIntact input result
verify_provider_write_iff input result =
    (verify_provider_write-IsIntact input result, IsIntact-verify_provider_write input result)
