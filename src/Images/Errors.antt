-- ===== src/Images/Errors.antt =====
-- src/image-derivative.ts: the errors of the image derivative worker.
use z_s_app.Prelude.{
  String, Bool, false, ◌||◌, Option, none, some, ◌==◌, string_eq, codes, nat_beq, if◌then◌else◌,
}
use z_s_app.Config.Text.{matches_token, is_lower, is_digit}

pub data DiagnosticCategory : Type 0 where
  invalid_request duplicate_conflict not_ready dependency_unavailable internal : DiagnosticCategory

pub record ImageDerivativeError : Type 0 where
  pub category : DiagnosticCategory
  pub code : String
  pub retryable : Bool

-- What a call throws: the module's error, an object with a category and a code, or anything else.
pub data Thrown : Type 0 where
  thrown : ImageDerivativeError → Thrown
  coded : String → String → Bool → Thrown
  unknown : Thrown

abbrev pub fails : DiagnosticCategory → String → ImageDerivativeError
fails category code = record { category = category; code = code; retryable = false }

abbrev pub category_of : String → Option DiagnosticCategory
category_of name =
    if name == "invalid-request"
    then some DiagnosticCategory.invalid_request
    else if name == "duplicate-conflict"
    then some DiagnosticCategory.duplicate_conflict
    else if name == "not-ready"
    then some DiagnosticCategory.not_ready
    else if name == "dependency-unavailable"
    then some DiagnosticCategory.dependency_unavailable
    else if name == "internal"
    then some DiagnosticCategory.internal
    else none

-- SAFE_CODE_PATTERN
unfoldable pub is_safe_code : String → Bool
is_safe_code text =
    matches_token (λ c. is_lower c || is_digit c) (λ c. is_lower c || is_digit c || nat_beq c b'-')
      95 (codes text)

unfoldable pub safe_code : String → String
safe_code code = if is_safe_code code then code else "image-derivative-internal-error"

abbrev internal_error : ImageDerivativeError
internal_error = fails DiagnosticCategory.internal "image-derivative-internal-error"

abbrev with_category : String → Bool → Option DiagnosticCategory → ImageDerivativeError
with_category code retryable none = internal_error
with_category code retryable (some category) = record {
  category = category;
  code = safe_code code;
  retryable = retryable;
}

unfoldable pub normalize_error : Thrown → ImageDerivativeError
normalize_error (thrown e) = e
normalize_error (coded category code retryable) =
    with_category code retryable (category_of category)
normalize_error unknown = internal_error
