-- ===== src/Delivery/Errors.antt =====
-- src/runtime-read-delivery.ts: `ObjectReadDeliveryError` and the diagnostics that are recorded.
use z_s_app.Prelude.{String, Bool, true, false, ℕ, List, [], if◌then◌else◌}
use z_s_app.Images.Errors.{is_safe_code}

-- `SafeDiagnosticCategory` of src/runtime-contract.ts
pub data Category : Type 0 where
  invalid_request unauthenticated unauthorized incompatible_version duplicate_conflict : Category
  not_ready dependency_unavailable internal : Category

-- a header and its value, as code points
abbrev pub Headers : Type 0
Headers = List (String × List ℕ)

pub record ObjectReadDeliveryError : Type 0 where
  pub category : Category
  pub code : String
  pub status : ℕ
  pub retryable : Bool
  pub headers : Headers

-- `ProviderReadExecutionError`, by the fields that are read here
pub record ProviderReadFailure : Type 0 where
  pub code : String
  pub retryable : Bool
  pub fallback_eligible : Bool

pub data Thrown : Type 0 where
  delivery : ObjectReadDeliveryError → Thrown
  provider : ProviderReadFailure → Thrown
  unknown : Thrown

pub record SafeDiagnostic : Type 0 where
  pub category : Category
  pub code : String
  pub retryable : Bool

abbrev pub refuses : Category → String → ℕ → Bool → Thrown
refuses category code status retryable = delivery (record {
  category = category;
  code = code;
  status = status;
  retryable = retryable;
  headers = [];
})

abbrev pub read_failed : String → Bool → Bool → Thrown
read_failed code retryable fallback_eligible =
    provider (record { code = code; retryable = retryable; fallback_eligible = fallback_eligible })

abbrev pub failure_diagnostic : ProviderReadFailure → SafeDiagnostic
failure_diagnostic e = record {
  category = Category.dependency_unavailable;
  code = if is_safe_code e.code then e.code else "provider-read-failed";
  retryable = e.retryable;
}

unfoldable pub safe_diagnostic : Thrown → SafeDiagnostic
unfolding is_safe_code
safe_diagnostic (provider e) = failure_diagnostic e
safe_diagnostic (delivery e) = record {
  category = e.category;
  code = e.code;
  retryable = e.retryable;
}
safe_diagnostic unknown = record {
  category = Category.dependency_unavailable;
  code = "provider-read-failed";
  retryable = true;
}

abbrev pub is_fallback_eligible : Thrown → Bool
is_fallback_eligible (provider e) = e.fallback_eligible
is_fallback_eligible _ = false
