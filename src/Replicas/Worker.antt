-- ===== src/Replicas/Worker.antt =====
-- src/runtime-replica-protection.ts: `ReplicaProtectionApplicationService` and its batches.
pub mod Repair
pub mod Retention
pub mod Batches
use z_s_app.Prelude.{
  ℕ, zero, suc, ◌+◌, ◌-◌, String, Bool, true, false, ◌&&◌, ◌||◌, not, Option, none, some, List, [],
  ◌∷◌, length, nat_beq, ◌==◌, string_eq, if◌then◌else◌, Result, ok, err,
}
use z_s_app.Prelude.Run.{
  Run, ◌>>=◌, ◌>>◌, pure, throw, call, continue, recover_with, try_catch, try_finally,
}
use z_s_app.Replicas.Errors.{
  DiagnosticCategory, ReplicaProtectionError, Thrown, fails, normalized_error, requires_cleanup,
}
use z_s_app.Replicas.Jobs.{
  ResolvedProviderReadTarget, ResolvedProviderWriteTarget, RepairJob, ProtectionCopy, RetentionJob,
  RetentionClaim, Failure, Opened, CleanupResult, Call, Collaborators,
}
use z_s_app.Replicas.Verify.{
  Verdict, verified, missing, mismatch, verify_provider_object, Mirror, mirrored, no_bytes,
}

abbrev pub Action : Type 0 → Type 0
Action A = Run Call Thrown A

-- REPLICA_PROTECTION_LIMITS
abbrev pub repair_batch_size : ℕ
repair_batch_size = 2

abbrev pub retention_batch_size : ℕ
retention_batch_size = 1

pub data Step : Type 0 where
  processed blocked idle : Step

pub record BatchResult : Type 0 where
  pub processed : ℕ
  pub idle : ℕ
  pub failed : ℕ
  pub blocked : ℕ

abbrev pub empty_batch : BatchResult
empty_batch = record { processed = 0; idle = 0; failed = 0; blocked = 0 }

abbrev pub not_deleted : String → Option (String × Bool) → Thrown
not_deleted code none = fails DiagnosticCategory.dependency_unavailable code true
not_deleted code (some (given, retryable)) =
    fails DiagnosticCategory.dependency_unavailable given retryable

abbrev pub throw_if : Bool → Thrown → Action (Unit {0})
throw_if true e = throw e
throw_if false e = pure tt

abbrev pub failure_of : ReplicaProtectionError → Failure
failure_of e = record {
  category = e.category;
  code = e.code;
  retryable = e.retryable;
  invalidate_replica_copy_id = none;
}

abbrev pub integrity_mismatch : Thrown
integrity_mismatch = fails DiagnosticCategory.not_ready "storage-primary-integrity-mismatch" false

module _ (digest : List ℕ → String) (c : Collaborators) where
  abbrev pub clean : ResolvedProviderWriteTarget → Action CleanupResult
  clean target = call (Call.cleanup target) (λ log. c.cleanup log target)

  -- `verifyProviderObject` for the target of a repair
  abbrev pub verify_target : RepairJob → Action Verdict
  verify_target job =
      verify_provider_object digest c job.target_read_target job.expected_checksum_sha256
        job.expected_byte_length

  abbrev pub complete : RepairJob → Action (Unit {0})
  complete job = call (Call.complete_repair job) (λ log. c.complete_repair log job)

  abbrev pub cleaned_if : Bool → ResolvedProviderWriteTarget → Action (Unit {0})
  cleaned_if true target = do r ← clean target; pure tt
  cleaned_if false target = pure tt

  -- the `catch` of the write
  abbrev pub unless_raced : RepairJob → Thrown → Verdict → Action (Unit {0})
  unless_raced job e verified = pure tt
  unless_raced job e _ = do cleaned_if (requires_cleanup e) job.target_write_target; throw e

  unfoldable pub write_failed : RepairJob → Thrown → Action (Unit {0})
  write_failed job e = do raced ← verify_target job; unless_raced job e raced

  abbrev pub is_exact : RepairJob → Mirror → Bool
  is_exact job m =
      m.completed
      && nat_beq m.byte_length job.expected_byte_length
      && digest m.bytes == job.expected_checksum_sha256

  abbrev pub exact_or_cleaned : RepairJob → Bool → Action (Unit {0})
  exact_or_cleaned job true = pure tt
  exact_or_cleaned job false = do r ← clean job.target_write_target; throw integrity_mismatch

  abbrev pub write_mirrored : RepairJob → Opened → ℕ × Result Thrown (Unit {0}) → Action (Unit {0})
  write_mirrored job source (pulls, reply) = do
    try_catch (call (Call.write job.target_write_target) (λ _. reply)) (write_failed job)
    exact_or_cleaned job (
        is_exact job (mirrored job.expected_byte_length pulls source.chunks source.breaks no_bytes))

  unfoldable pub transfer : RepairJob → Opened → Action (Unit {0})
  transfer job source = do
    throw_if (not (nat_beq source.byte_length job.expected_byte_length)) integrity_mismatch
    (λ log. write_mirrored job source (c.write log job.target_write_target) log)

  abbrev pub completed_if : RepairJob → Verdict → Action (Unit {0})
  completed_if job verified = complete job
  completed_if job _ = do
    r ← clean job.target_write_target
    throw (
        fails DiagnosticCategory.dependency_unavailable "storage-replica-verification-mismatch"
          true)

  abbrev pub open_source : RepairJob → Action Opened
  open_source job =
      try_catch (call (Call.read job.source_target) (λ log. c.get log job.source_target)) (λ _.
        throw
          (fails DiagnosticCategory.dependency_unavailable "storage-primary-read-unavailable" true))

  unfoldable pub copy_source : RepairJob → Action (Unit {0})
  unfolding transfer write_failed
  copy_source job = do
    source ← open_source job
    try_finally (transfer job source) (Call.close job.source_target)
    again ← verify_target job
    completed_if job again

  abbrev pub repaired : RepairJob → Verdict → Action (Unit {0})
  repaired job verified = complete job
  repaired job missing = copy_source job
  repaired job mismatch = do
    r ← clean job.target_write_target
    throw_if (not r.deleted) (not_deleted "storage-replica-cleanup-failed" r.diagnostic)
    copy_source job

  unfoldable pub repair : RepairJob → Action (Unit {0})
  unfolding copy_source
  repair job = do existing ← verify_target job; repaired job existing

  abbrev pub fail_repair : RepairJob → Thrown → Action (Unit {0})
  fail_repair job e =
      let f = failure_of (normalized_error e) in
      call (Call.fail_repair job f) (λ log. c.fail_repair log job f)

  unfoldable pub process_repair : RepairJob → Action (Unit {0})
  unfolding repair
  process_repair job = try_catch (repair job) (fail_repair job)

  abbrev pub fail_retention : RetentionJob → Failure → Action (Unit {0})
  fail_retention job f = call (Call.fail_retention job f) (λ log. c.fail_retention log job f)

  abbrev pub unprotected : ProtectionCopy → Verdict → Failure
  unprotected p missing = record {
    category = DiagnosticCategory.not_ready;
    code = "storage-retention-protection-copy-missing";
    retryable = true;
    invalidate_replica_copy_id = some p.storage_object_copy_id;
  }
  unprotected p _ = record {
    category = DiagnosticCategory.dependency_unavailable;
    code = "storage-retention-protection-integrity-mismatch";
    retryable = true;
    invalidate_replica_copy_id = some p.storage_object_copy_id;
  }

  -- what follows a verdict on a protection copy; `later` goes on with the copies after it
  abbrev pub check_rest : RetentionJob → ProtectionCopy → Action Bool → Verdict → Action Bool
  check_rest job p later verified = later
  check_rest job p later missing = do fail_retention job (unprotected p missing); pure false
  check_rest job p later mismatch = do fail_retention job (unprotected p mismatch); pure false

  -- the loop over the protection copies: `true` if all were verified
  unfoldable pub check_copies : RetentionJob → List ProtectionCopy → Action Bool
  check_copies job [] = pure true
  check_copies job (p ∷ rest) =
      let later = check_copies job rest in
      do
        verdict ←
            verify_provider_object digest c p.target job.expected_checksum_sha256
              job.expected_byte_length
        check_rest job p later verdict

  abbrev pub retained : RetentionJob → Bool → Action Step
  retained job false = pure blocked
  retained job true = do
    r ← clean job.primary_target
    throw_if (not r.deleted) (not_deleted "storage-retention-primary-delete-failed" r.diagnostic)
    call (Call.complete_retention job) (λ log. c.complete_retention log job)
    pure processed

  unfoldable pub retain : RetentionJob → Action Step
  unfolding check_copies
  retain job = do protected ← check_copies job job.protection_copies; retained job protected

  abbrev pub blocked_by : RetentionJob → Thrown → Action Step
  blocked_by job e = do fail_retention job (failure_of (normalized_error e)); pure blocked

  unfoldable pub process_retention : RetentionClaim → Action Step
  unfolding retain
  process_retention RetentionClaim.idle = pure idle
  process_retention RetentionClaim.blocked = pure blocked
  process_retention (RetentionClaim.job job) = try_catch (retain job) (blocked_by job)

  -- one round of `runRepairBatch`, after the claim
  unfoldable pub repair_round : BatchResult → Option RepairJob → Action BatchResult
  unfolding process_repair
  repair_round b none = pure (record b { idle = b.idle + 1 })
  repair_round b (some job) =
      try_catch (do process_repair job; pure (record b { processed = b.processed + 1 }))
        (λ _. pure (record b { failed = b.failed + 1 }))

  -- `rounds` rounds are left, and the next worker has the number `index`.
  unfoldable pub repair_rounds : ℕ → ℕ → BatchResult → Action BatchResult
  unfolding repair_round
  repair_rounds zero index b = pure b
  repair_rounds (suc rounds) index b = do
    job ← call (Call.claim_repair index) (λ log. c.claim_repair log index)
    b' ← repair_round b job
    repair_rounds rounds (index + 1) b'

  unfoldable pub run_repair_batch : Action BatchResult
  unfolding repair_rounds
  run_repair_batch = repair_rounds repair_batch_size 1 empty_batch

  abbrev pub counted : BatchResult → Step → BatchResult
  counted b processed = record b { processed = b.processed + 1 }
  counted b blocked = record b { blocked = b.blocked + 1 }
  counted b idle = record b { idle = b.idle + 1 }

  unfoldable pub retention_round : BatchResult → RetentionClaim → Action BatchResult
  unfolding process_retention
  retention_round b claim =
      try_catch (do step ← process_retention claim; pure (counted b step))
        (λ _. pure (record b { failed = b.failed + 1 }))

  unfoldable pub retention_rounds : ℕ → ℕ → BatchResult → Action BatchResult
  unfolding retention_round
  retention_rounds zero index b = pure b
  retention_rounds (suc rounds) index b = do
    claim ← call (Call.claim_retention index) (λ log. c.claim_retention log index)
    b' ← retention_round b claim
    retention_rounds rounds (index + 1) b'

  unfoldable pub run_retention_batch : Action BatchResult
  unfolding retention_rounds
  run_retention_batch = retention_rounds retention_batch_size 1 empty_batch
