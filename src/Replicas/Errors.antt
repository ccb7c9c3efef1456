-- ===== src/Replicas/Errors.antt =====
-- src/runtime-replica-protection.ts: what the worker's calls throw.
use z_s_app.Prelude.{String, Bool, false, ◌==◌, string_eq, if◌then◌else◌}
use z_s_app.Images.Errors.{is_safe_code}

pub data DiagnosticCategory : Type 0 where
  duplicate_conflict not_ready dependency_unavailable internal : DiagnosticCategory

pub record ReplicaProtectionError : Type 0 where
  pub category : DiagnosticCategory
  pub code : String
  pub retryable : Bool

-- `ProviderExecutionError` of src/runtime-s3-provider.ts, by the fields that are read here
pub record ProviderExecutionError : Type 0 where
  pub code : String
  pub retryable : Bool
  pub cleanup_required : Bool

-- `ProviderReadExecutionError` of src/runtime-read-delivery.ts, by the fields that are read here
pub record ProviderReadExecutionError : Type 0 where
  pub code : String
  pub retryable : Bool

pub data Thrown : Type 0 where
  protection : ReplicaProtectionError → Thrown
  execution : ProviderExecutionError → Thrown
  read_execution : ProviderReadExecutionError → Thrown
  unknown : Thrown

abbrev pub fails : DiagnosticCategory → String → Bool → Thrown
fails category code retryable =
    protection (record { category = category; code = code; retryable = retryable })

-- SAFE_CODE_PATTERN is the same as in src/image-derivative.ts.
unfoldable pub safe_code : String → String
safe_code code = if is_safe_code code then code else "storage-replica-protection-failed"

unfoldable pub normalized_error : Thrown → ReplicaProtectionError
unfolding safe_code
normalized_error (protection e) = e
normalized_error (execution e) = record {
  category = DiagnosticCategory.dependency_unavailable;
  code = safe_code e.code;
  retryable = e.retryable;
}
normalized_error (read_execution e) = record {
  category = DiagnosticCategory.dependency_unavailable;
  code = safe_code e.code;
  retryable = e.retryable;
}
normalized_error unknown = record {
  category = DiagnosticCategory.internal;
  code = "storage-replica-protection-failed";
  retryable = false;
}

abbrev pub is_missing : Thrown → Bool
is_missing (read_execution e) = e.code == "provider-read-missing"
is_missing _ = false

abbrev pub requires_cleanup : Thrown → Bool
requires_cleanup (execution e) = e.cleanup_required
requires_cleanup _ = false
