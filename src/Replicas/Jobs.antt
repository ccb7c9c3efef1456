-- ===== src/Replicas/Jobs.antt =====
-- src/runtime-replica-protection.ts: the jobs, the calls of the worker and what they reply.
use z_s_app.Prelude.{ℕ, String, Bool, Option, List, Result}
use z_s_app.Config.Document.{ClientStorageEnvironment}
use z_s_app.Records.{ProviderCapabilityPolicy}
use z_s_app.Replicas.Errors.{DiagnosticCategory, Thrown}

pub data CopyRole : Type 0 where
  hot canonical primary replica : CopyRole

pub record ResolvedProviderReadTarget : Type 0 where
  pub provider_role : CopyRole
  pub provider_id : String
  pub bucket_label : String
  pub internal_locator : String
  pub credential_secret_reference_id : String

pub record ProviderCredentialScope : Type 0 where
  pub client_id : String
  pub environment : ClientStorageEnvironment

pub record ResolvedProviderWriteTarget : Type 0 where
  pub provider_role : CopyRole
  pub provider_id : String
  pub bucket_label : String
  pub internal_locator : String
  pub normalized_prefix_pattern : String
  pub capability_policy : ProviderCapabilityPolicy
  pub credential_secret_reference_id : String
  pub credential_scope : Option ProviderCredentialScope

pub record RepairJob : Type 0 where
  pub provider_attempt_id : String
  pub attempt_number : ℕ
  pub lease_token : String
  pub storage_object_id : String
  pub source_storage_object_copy_id : String
  pub target_storage_object_copy_id : String
  pub expected_checksum_sha256 : String
  pub expected_byte_length : ℕ
  pub source_target : ResolvedProviderReadTarget
  pub target_read_target : ResolvedProviderReadTarget
  pub target_write_target : ResolvedProviderWriteTarget

pub record ProtectionCopy : Type 0 where
  pub storage_object_copy_id : String
  pub target : ResolvedProviderReadTarget

pub record RetentionJob : Type 0 where
  pub provider_attempt_id : String
  pub attempt_number : ℕ
  pub lease_token : String
  pub storage_object_id : String
  pub primary_storage_object_copy_id : String
  pub expected_checksum_sha256 : String
  pub expected_byte_length : ℕ
  pub primary_target : ResolvedProviderWriteTarget
  pub protection_copies : List ProtectionCopy

pub data RetentionClaim : Type 0 where
  job : RetentionJob → RetentionClaim
  blocked idle : RetentionClaim

pub record Failure : Type 0 where
  pub category : DiagnosticCategory
  pub code : String
  pub retryable : Bool
  pub invalidate_replica_copy_id : Option String

-- An open object: the length that the provider reports, and what its stream yields. `breaks` is
-- what the stream throws after the chunks, if it throws.
pub record Opened : Type 0 where
  pub byte_length : ℕ
  pub chunks : List (List ℕ)
  pub breaks : Option Thrown

-- the code of the diagnostic, and whether a retry may help
pub record CleanupResult : Type 0 where
  pub deleted : Bool
  pub diagnostic : Option (String × Bool)

pub data Call : Type 0 where
  claim_repair claim_retention : ℕ → Call
  read close : ResolvedProviderReadTarget → Call
  write cleanup : ResolvedProviderWriteTarget → Call
  complete_repair : RepairJob → Call
  fail_repair : RepairJob → Failure → Call
  complete_retention : RetentionJob → Call
  fail_retention : RetentionJob → Failure → Call

-- `write` also says how often the writer asks the source for a chunk.
pub record Collaborators : Type 0 where
  pub claim_repair : List Call → ℕ → Result Thrown (Option RepairJob)
  pub claim_retention : List Call → ℕ → Result Thrown RetentionClaim
  pub get : List Call → ResolvedProviderReadTarget → Result Thrown Opened
  pub write : List Call → ResolvedProviderWriteTarget → ℕ × Result Thrown (Unit {0})
  pub cleanup : List Call → ResolvedProviderWriteTarget → Result Thrown CleanupResult
  pub complete_repair : List Call → RepairJob → Result Thrown (Unit {0})
  pub fail_repair : List Call → RepairJob → Failure → Result Thrown (Unit {0})
  pub complete_retention : List Call → RetentionJob → Result Thrown (Unit {0})
  pub fail_retention : List Call → RetentionJob → Failure → Result Thrown (Unit {0})
