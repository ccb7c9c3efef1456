-- ===== src/Images.antt =====
-- src/image-derivative.ts: one job of the image derivative worker.
-- The store, the source reader, the processor and the output writer are `Collaborators`: what each
-- call of them returns or throws. `digest` is SHA-256 of bytes, in hexadecimal. A run is the calls
-- that were made, in order, with what it returned or threw.
pub mod Errors
pub mod Settlement
pub mod Outcome
use z_s_app.Prelude.{
  ℕ, ◌*◌, String, Bool, true, false, ◌&&◌, ◌||◌, not, Option, none, some, List, [], ◌∷◌, ◌++◌, ltb,
  leb, nat_beq, ◌==◌, string_eq, every, length, codes, if◌then◌else◌, Result, ok, err,
}
use z_s_app.Config.Document.{
  JsNumber, natural, other, number_beq, OutputFormat, Fit, ClientStorageEnvironment,
}
use z_s_app.Config.Text.{matches_token, is_lower, is_digit, between}
use z_s_app.Config.Validation.{in_range}
use z_s_app.Images.Errors.{
  DiagnosticCategory, ImageDerivativeError, Thrown, thrown, normalize_error, safe_code, fails,
}

pub data ImageDerivativeJobState : Type 0 where
  queued processing succeeded failed : ImageDerivativeJobState

pub record ImageDerivativeJob : Type 0 where
  pub id : String
  pub source_storage_object_id : String
  pub storage_control_client_id : String
  pub environment : ClientStorageEnvironment
  pub configuration_version_id : String
  pub configuration_fingerprint : String
  pub configuration_route_id : String
  pub configuration_image_preset_id : String
  pub preset_id : String
  pub target_configuration_vault_id : String
  pub requested_width : JsNumber
  pub output_format : OutputFormat
  pub quality : JsNumber
  pub fit : Fit
  pub state : ImageDerivativeJobState
  pub attempt_count : ℕ
  pub maximum_attempts : ℕ
  pub lease_token : String

pub record ImageDerivativeSource : Type 0 where
  pub media_type : String
  pub byte_length : JsNumber
  pub checksum_sha256 : String
  pub body : List ℕ

pub record ProcessedImageDerivative : Type 0 where
  pub media_type : String
  pub width : JsNumber
  pub height : JsNumber
  pub byte_length : JsNumber
  pub checksum_sha256 : String
  pub body : List ℕ

pub record VerifiedImageDerivativeOutput : Type 0 where
  pub storage_object_id : String
  pub byte_length : JsNumber
  pub checksum_sha256 : String

pub record ImageDerivativeFailure : Type 0 where
  pub category : DiagnosticCategory
  pub code : String
  pub retryable : Bool
  pub retry_delay_ms : ℕ

-- IMAGE_DERIVATIVE_LIMITS
abbrev pub maximum_source_bytes : ℕ
maximum_source_bytes = 33554432

abbrev pub maximum_decoded_pixels : ℕ
maximum_decoded_pixels = 67108864

abbrev pub minimum_width : ℕ
minimum_width = 16

abbrev pub maximum_width : ℕ
maximum_width = 16384

abbrev pub minimum_quality : ℕ
minimum_quality = 1

abbrev pub maximum_quality : ℕ
maximum_quality = 100

abbrev pub maximum_output_bytes : ℕ
maximum_output_bytes = 16777216

abbrev pub retry_delay_ms : ℕ
retry_delay_ms = 60000

unfoldable pub is_sha256 : String → Bool
is_sha256 text =
    every (λ c. between b'a' b'f' c || is_digit c) (codes text) && nat_beq (length (codes text)) 64

pub data Call : Type 0 where
  claim_next read process write complete cleanup close : Call
  fail : ImageDerivativeFailure → Call

abbrev pub Run : Type 0 → Type 0
Run A = List Call × Result Thrown A

pub record Collaborators : Type 0 where
  pub claim_next : Result Thrown (Option ImageDerivativeJob)
  pub read : ImageDerivativeJob → Result Thrown ImageDerivativeSource
  pub process : ImageDerivativeJob → ImageDerivativeSource → Result Thrown ProcessedImageDerivative
  pub write :
      ImageDerivativeJob → ProcessedImageDerivative → Result Thrown VerifiedImageDerivativeOutput
  pub complete : ImageDerivativeJob → VerifiedImageDerivativeOutput → Result Thrown (Unit {0})
  pub cleanup : ImageDerivativeJob → Result Thrown (Unit {0})
  pub fail : ImageDerivativeJob → ImageDerivativeFailure → Result Thrown (Unit {0})
  pub close : ImageDerivativeSource → Result Thrown (Unit {0})

pub data Step : Type 0 where
  processed idle : Step

infixl 5 ◌>>=◌
pub ◌>>=◌ : {A B : Type 0} → Run A → (A → Run B) → Run B
(calls, err e) >>= next = (calls, err e)
(calls, ok v) >>= next = let rest = next v in (calls ++ rest.0, rest.1)

infixl 5 ◌>>◌
pub ◌>>◌ : {B : Type 0} → Run (Unit {0}) → Run B → Run B
unfolding ◌>>=◌
first >> then_run = first >>= λ _. then_run

abbrev pub call : {A : Type 0} → Call → Result Thrown A → Run A
call c r = (c ∷ [], r)

abbrev pub throw_if : Bool → ImageDerivativeError → Run (Unit {0})
throw_if true e = ([], err (thrown e))
throw_if false e = ([], ok tt)

unfoldable pub assert_source : ImageDerivativeJob → ImageDerivativeSource → Run (Unit {0})
unfolding ◌>>=◌ ◌>>◌ is_sha256
assert_source job source = do
  throw_if (not (source.media_type == "image/png"))
      (fails DiagnosticCategory.invalid_request "image-derivative-input-mime-unsupported")
  throw_if (not (in_range 1 maximum_source_bytes source.byte_length))
      (fails DiagnosticCategory.invalid_request "image-derivative-source-byte-limit")
  throw_if (not (is_sha256 source.checksum_sha256))
      (fails DiagnosticCategory.invalid_request "image-derivative-source-checksum-invalid")
  throw_if (not (in_range minimum_width maximum_width job.requested_width))
      (fails DiagnosticCategory.invalid_request "image-derivative-width-invalid")
  throw_if (not (in_range minimum_quality maximum_quality job.quality))
      (fails DiagnosticCategory.invalid_request "image-derivative-quality-invalid")

abbrev pub within_pixels : JsNumber → JsNumber → Bool
within_pixels (natural w) (natural h) = leb 1 h && leb (w * h) maximum_decoded_pixels
within_pixels w h = false

module _ (digest : List ℕ → String) where
  unfoldable pub is_fine_output : ProcessedImageDerivative → Bool
  unfolding is_sha256
  is_fine_output output =
      output.media_type == "image/png"
      && in_range minimum_width maximum_width output.width
      && within_pixels output.width output.height
      && number_beq output.byte_length (natural (length output.body))
      && in_range 1 maximum_output_bytes output.byte_length
      && is_sha256 output.checksum_sha256
      && digest output.body == output.checksum_sha256

  unfoldable pub assert_processed : ProcessedImageDerivative → Run (Unit {0})
  assert_processed output =
      throw_if (not (is_fine_output output))
        (fails DiagnosticCategory.internal "image-derivative-processor-output-invalid")

  -- the body of the `try`
  unfoldable pub work : Collaborators → ImageDerivativeJob → Run (Unit {0})
  unfolding ◌>>=◌ ◌>>◌ assert_source assert_processed
  work c job = do
    source ← call Call.read (c.read job)
    assert_source job source
    output ← call Call.process (c.process job source)
    assert_processed output
    verified ← call Call.write (c.write job output)
    throw_if
        (not (number_beq verified.byte_length output.byte_length)
          || not (verified.checksum_sha256 == output.checksum_sha256))
        (fails DiagnosticCategory.dependency_unavailable
          "image-derivative-output-verification-mismatch")
    call Call.complete (c.complete job verified)

  unfoldable pub reported : ImageDerivativeFailure → Result Thrown (Unit {0}) → Run Step
  reported f (ok u) = (Call.fail f ∷ [], ok processed)
  reported f (err e) = (Call.fail f ∷ [], err e)

  abbrev pub failure_of : ImageDerivativeError → ImageDerivativeFailure
  failure_of e = record {
    category = e.category;
    code = safe_code e.code;
    retryable = e.retryable;
    retry_delay_ms = retry_delay_ms;
  }

  abbrev pub cleanup_failure : ImageDerivativeFailure
  cleanup_failure = record {
    category = DiagnosticCategory.dependency_unavailable;
    code = "image-derivative-output-cleanup-failed";
    retryable = true;
    retry_delay_ms = retry_delay_ms;
  }

  -- the failure that is stored, by what the cleanup returned or threw
  unfoldable pub stored_failure : Thrown → Result Thrown (Unit {0}) → ImageDerivativeFailure
  stored_failure e (err _) = cleanup_failure
  stored_failure e (ok _) = failure_of (normalize_error e)

  -- the body of the `catch`
  unfoldable pub recover : Collaborators → ImageDerivativeJob → Thrown → Run Step
  unfolding reported stored_failure
  recover c job e =
      let f = stored_failure e (c.cleanup job) in
      let r = reported f (c.fail job f) in (Call.cleanup ∷ r.0, r.1)

  -- `try … catch …`
  unfoldable pub work_or_recover : Collaborators → ImageDerivativeJob → Run (Unit {0}) → Run Step
  work_or_recover c job (calls, ok _) = (calls, ok processed)
  work_or_recover c job (calls, err e) = let r = recover c job e in (calls ++ r.0, r.1)

  -- `finally { source?.close(); }`
  abbrev pub closing : Result Thrown ImageDerivativeSource → List Call
  closing (ok _) = Call.close ∷ []
  closing (err _) = []

  -- An error of `close` takes the place of what the `try` returned or threw.
  abbrev pub unless_thrown : Result Thrown (Unit {0}) → Result Thrown Step → Result Thrown Step
  unless_thrown (ok u) r = r
  unless_thrown (err e) r = err e

  abbrev pub after_closing :
      Collaborators → Result Thrown ImageDerivativeSource → Result Thrown Step → Result Thrown Step
  after_closing c (ok source) r = unless_thrown (c.close source) r
  after_closing c (err e) r = r

  unfoldable pub after_claim : Collaborators → Result Thrown (Option ImageDerivativeJob) → Run Step
  unfolding work recover work_or_recover
  after_claim c (err e) = (Call.claim_next ∷ [], err e)
  after_claim c (ok none) = (Call.claim_next ∷ [], ok idle)
  after_claim c (ok (some job)) =
      let r = work_or_recover c job (work c job) in
      (Call.claim_next ∷ (r.0 ++ closing (c.read job)), after_closing c (c.read job) r.1)

  unfoldable pub process_next : Collaborators → Run Step
  unfolding after_claim
  process_next c = after_claim c c.claim_next
