-- ===== src/Integrity.antt =====
-- src/integrity.ts: the check of a provider's report on a written object.
pub mod Laws
use z_s_app.Prelude.{
  ℕ, String, Bool, true, false, not, Option, none, some, ◌==◌, nat_eq, string_eq, Result, ok, err,
  ◌>>=◌, ◌>>◌, fail_if, if◌then◌else◌,
}
use z_s_app.Domain.{ControlPlaneErrorCode}
use z_s_app.Records.{HeadContentLength, ProviderCapabilityPolicy}
use z_s_app.Prefix.{object_key_matches_pattern}

-- A pattern of the wrong form throws the control plane's error out of `verifyProviderWrite`.
pub data IntegrityError : Type 0 where
  provider_mismatch bucket_mismatch prefix_mismatch checksum_required : IntegrityError
  checksum_mismatch size_unavailable size_mismatch : IntegrityError
  control_plane : ControlPlaneErrorCode → IntegrityError

pub record VerifyProviderWriteInput : Type 0 where
  pub expected_provider_id : String
  pub expected_bucket_label : String
  pub normalized_prefix_pattern : String
  pub object_key : String
  pub expected_checksum : Option String
  pub expected_size_bytes : Option ℕ
  pub observed_provider_id : String
  pub observed_bucket_label : String
  pub observed_checksum : Option String
  pub observed_size_bytes : Option ℕ
  pub capability_policy : ProviderCapabilityPolicy

pub data SizeVerificationDisposition : Type 0 where
  matched not_supplied unsupported_with_checksum : SizeVerificationDisposition

-- `verified` and `checksumVerified` are `true` in each result.
pub record IntegrityVerificationResult : Type 0 where
  pub size_verified : Bool
  pub size_verification_disposition : SizeVerificationDisposition

abbrev lift : Result ControlPlaneErrorCode Bool → Result IntegrityError Bool
lift (ok b) = ok b
lift (err e) = err (control_plane e)

pub verify_checksum : Option String → Option String → Result IntegrityError (Unit {0})
verify_checksum (some expected) (some observed) =
    fail_if (not (expected == observed)) checksum_mismatch
verify_checksum _ _ = err checksum_required

abbrev pub is_optional : HeadContentLength → Bool
is_optional HeadContentLength.optional_with_checksum = true
is_optional HeadContentLength.required = false

pub verify_size :
    HeadContentLength → Option ℕ → Option ℕ → Result IntegrityError IntegrityVerificationResult
verify_size head none observed =
    ok (record { size_verified = false; size_verification_disposition = not_supplied })
verify_size head (some expected) none =
    if not (is_optional head)
    then err size_unavailable
    else ok (record {
      size_verified = false;
      size_verification_disposition = unsupported_with_checksum;
    })
verify_size head (some expected) (some observed) =
    if not (expected == observed)
    then err size_mismatch
    else ok (record { size_verified = true; size_verification_disposition = matched })

unfoldable pub verify_provider_write :
    VerifyProviderWriteInput → Result IntegrityError IntegrityVerificationResult
unfolding verify_checksum verify_size
verify_provider_write input = do
  fail_if (not (input.expected_provider_id == input.observed_provider_id)) provider_mismatch
  fail_if (not (input.expected_bucket_label == input.observed_bucket_label)) bucket_mismatch
  inside ← lift (object_key_matches_pattern input.object_key input.normalized_prefix_pattern)
  fail_if (not inside) prefix_mismatch
  verify_checksum input.expected_checksum input.observed_checksum
  verify_size input.capability_policy.head_content_length input.expected_size_bytes
      input.observed_size_bytes
