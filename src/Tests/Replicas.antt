-- ===== src/Tests/Replicas.antt =====
-- src/runtime-replica-protection.ts: a repair that copies, a retention that deletes, and batches.
use z_s_app.Prelude.{
  ℕ, ◌≡◌, ◌↔◌, refl, true, none, some, List, [], ◌∷◌, length, nat_beq, String, if◌then◌else◌,
  Result, ok, err,
}
use z_s_app.Records.{HeadContentLength, RangeRead}
use z_s_app.Replicas.Errors.{Thrown, read_execution, safe_code, normalized_error}
use z_s_app.Replicas.Jobs.{
  CopyRole, ResolvedProviderReadTarget, ResolvedProviderWriteTarget, RepairJob, RetentionJob,
  RetentionClaim, Opened, Call, Collaborators,
}
use z_s_app.Replicas.Verify.{verified, judge, hash_chunks, verify_provider_object, mirrored}
use z_s_app.Replicas.Verify.Reads.{Matches, judge_iff_Matches}
use z_s_app.Replicas.Worker.{
  BatchResult, processed, process_repair, repair, copy_source, transfer, write_failed,
  process_retention, retain, check_copies, repair_round, repair_rounds, run_repair_batch,
  retention_round, retention_rounds, run_retention_batch, repair_batch_size, retention_batch_size,
}
use z_s_app.Replicas.Worker.Repair.{
  IsJustified, none_yet, process_repair-IsJustified, IsSettled, process_repair-IsSettled,
}
use z_s_app.Replicas.Worker.Retention.{IsGuarded, process_retention-IsGuarded}
use z_s_app.Replicas.Worker.Retention as Kept
use z_s_app.Replicas.Worker.Batches.{total, run_repair_batch-total, run_retention_batch-total}

abbrev digest : List ℕ → String
digest bytes = if nat_beq (length bytes) 2 then "two" else "other"

abbrev read_target : CopyRole → ResolvedProviderReadTarget
read_target role = record {
  provider_role = role;
  provider_id = "p1";
  bucket_label = "b1";
  internal_locator = "o/1";
  credential_secret_reference_id = "env:KEY";
}

abbrev write_target : CopyRole → ResolvedProviderWriteTarget
write_target role = record {
  provider_role = role;
  provider_id = "p1";
  bucket_label = "b1";
  internal_locator = "o/1";
  normalized_prefix_pattern = "o/*";
  capability_policy = record {
    head_content_length = HeadContentLength.required;
    range_read = RangeRead.required;
  };
  credential_secret_reference_id = "env:KEY";
  credential_scope = none;
}

abbrev job : RepairJob
job = record {
  provider_attempt_id = "a1";
  attempt_number = 1;
  lease_token = "l1";
  storage_object_id = "o1";
  source_storage_object_copy_id = "c1";
  target_storage_object_copy_id = "c2";
  expected_checksum_sha256 = "two";
  expected_byte_length = 2;
  source_target = read_target CopyRole.primary;
  target_read_target = read_target CopyRole.replica;
  target_write_target = write_target CopyRole.replica;
}

abbrev retention : RetentionJob
retention = record {
  provider_attempt_id = "a1";
  attempt_number = 1;
  lease_token = "l1";
  storage_object_id = "o1";
  primary_storage_object_copy_id = "c1";
  expected_checksum_sha256 = "two";
  expected_byte_length = 2;
  primary_target = write_target CopyRole.primary;
  protection_copies =
      record { storage_object_copy_id = "c2"; target = read_target CopyRole.replica } ∷ [];
}

abbrev object : Opened
object = record { byte_length = 2; chunks = (7 ∷ []) ∷ (8 ∷ []) ∷ []; breaks = none }

-- the replica is there once it was written
abbrev found : List Call → CopyRole → Result Thrown Opened
found (Call.write target ∷ log) role = ok object
found (call ∷ log) role = found log role
found [] CopyRole.replica =
    err (read_execution (record { code = "provider-read-missing"; retryable = true }))
found [] _ = ok object

abbrev collaborators : Collaborators
collaborators = record {
  claim_repair = λ log index. ok (some job);
  claim_retention = λ log index. ok (RetentionClaim.job retention);
  get = λ log target. found log target.provider_role;
  write = λ log target. (3, ok tt);
  cleanup = λ log target. ok (record { deleted = true; diagnostic = none });
  complete_repair = λ log job. ok tt;
  fail_repair = λ log job f. ok tt;
  complete_retention = λ log job. ok tt;
  fail_retention = λ log job f. ok tt;
}

replicas : Unit {0}
unfolding judge hash_chunks verify_provider_object mirrored process_repair repair copy_source
    transfer write_failed process_retention retain check_copies safe_code normalized_error
    repair_round repair_rounds run_repair_batch retention_round retention_rounds run_retention_batch
replicas = tt

repaired_calls :
    (process_repair digest collaborators job []).1
    ≡ Call.complete_repair job
      ∷ Call.close (read_target CopyRole.replica)
      ∷ Call.read (read_target CopyRole.replica)
      ∷ Call.close (read_target CopyRole.primary)
      ∷ Call.write (write_target CopyRole.replica)
      ∷ Call.read (read_target CopyRole.primary)
      ∷ Call.read (read_target CopyRole.replica)
      ∷ []
unfolding replicas
repaired_calls = refl

kept_calls :
    (process_retention digest collaborators
      (RetentionClaim.job retention)
      (Call.write (write_target CopyRole.replica) ∷ [])).0
    ≡ ok processed
unfolding replicas
kept_calls = refl

judge_iff_Matches_example :
    (judge digest "two" 2 object ≡ ok verified) ↔ Matches digest "two" 2 object
judge_iff_Matches_example = judge_iff_Matches digest "two" 2 object

process_repair-IsJustified_example :
    IsJustified digest collaborators (process_repair digest collaborators job []).1
process_repair-IsJustified_example = process_repair-IsJustified digest collaborators job [] none_yet

process_repair-IsSettled_example :
    IsSettled collaborators job (process_repair digest collaborators job []).1
process_repair-IsSettled_example = process_repair-IsSettled digest collaborators job []

process_retention-IsGuarded_example :
    IsGuarded digest collaborators retention
      (process_retention digest collaborators
        (RetentionClaim.job retention)
        (Call.write (write_target CopyRole.replica) ∷ [])).1
process_retention-IsGuarded_example =
    process_retention-IsGuarded digest collaborators retention
      (Call.write (write_target CopyRole.replica) ∷ []) (Kept.harmless refl Kept.none_yet)

run_repair_batch-total_example :
    (b : BatchResult) × (((run_repair_batch digest collaborators []).0 ≡ ok b)
      × (total b ≡ repair_batch_size))
run_repair_batch-total_example =
    run_repair_batch-total digest collaborators (λ log index. (some job, refl)) []

run_retention_batch-total_example :
    (b : BatchResult) × (((run_retention_batch digest collaborators []).0 ≡ ok b)
      × (total b ≡ retention_batch_size))
run_retention_batch-total_example =
    run_retention_batch-total digest collaborators
      (λ log index. (RetentionClaim.job retention, refl)) []
