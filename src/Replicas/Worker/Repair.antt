-- ===== src/Replicas/Worker/Repair.antt =====
-- src/runtime-replica-protection.ts: what `processRepair` ensures of the calls it makes.
use z_s_app.Prelude.{ℕ, ◌≡◌, refl, String, Bool, true, false, List, [], ◌∷◌, Result, ok, err}
use z_s_app.Prelude.Run.{
  Ends, Ensures, Ensures-bind, Ensures-catch, Ensures-finally, Ensures-call, Ensures-any,
  Ensures-pure, Ensures-throw, ◌>>=◌, throw, call, try_finally,
}
use z_s_app.Replicas.Errors.{Thrown, normalized_error, requires_cleanup}
use z_s_app.Replicas.Jobs.{
  RepairJob, Failure, ResolvedProviderWriteTarget, Opened, Call, Collaborators,
}
use z_s_app.Replicas.Verify.{Verdict, verified, missing, mismatch}
use z_s_app.Replicas.Verify.Reads.{IsVerifiedRead, After, verify_provider_object-Ensures}
use z_s_app.Replicas.Worker.{
  Action, throw_if, clean, verify_target, complete, cleaned_if, unless_raced, write_failed,
  open_source, exact_or_cleaned, write_mirrored, transfer, completed_if, copy_source, repaired,
  repair, process_repair, failure_of,
}

abbrev pub completes : Call → Bool
completes (Call.complete_repair job) = true
completes _ = false

module _ (digest : List ℕ → String) (c : Collaborators) where
  -- Each completion of a repair stands directly on a verified read of the repair's target.
  pub data IsJustified : List Call → Type 0 where
    none_yet : IsJustified []
    other :
        {k : Call} {log : List Call} → completes k ≡ false → IsJustified log → IsJustified (k ∷ log)
    completed :
        {job : RepairJob} {log : List Call}
        → IsVerifiedRead digest c job.target_read_target job.expected_checksum_sha256
            job.expected_byte_length log
        → IsJustified log
        → IsJustified (Call.complete_repair job ∷ log)

  abbrev P : List Call → Type 0
  P = IsJustified

  abbrev Keeps : {A : Type 0} → Action A → Type 0
  Keeps m = Ensures P m (λ _. P) P

  Keeps-call :
      {A : Type 0} (k : Call) (reply : List Call → Result Thrown A)
      → completes k ≡ false
      → Keeps (call k reply)
  Keeps-call k reply h =
      Ensures-call k reply (λ log v p same. other h p) (λ log e p same. other h p)

  Keeps-verify :
      (job : RepairJob)
      → Ensures P
          (verify_target digest c job)
          (After digest c job.target_read_target job.expected_checksum_sha256
            job.expected_byte_length P)
          P
  Keeps-verify job =
      verify_provider_object-Ensures digest c job.target_read_target job.expected_checksum_sha256
        job.expected_byte_length P (λ log p. other refl p) (λ log p. other refl p)

  abbrev Verified : RepairJob → Verdict → List Call → Type 0
  Verified job =
      After digest c job.target_read_target job.expected_checksum_sha256 job.expected_byte_length P

  complete-Ensures :
      (job : RepairJob) → Ensures (Verified job verified) (complete digest c job) (λ _. P) P
  complete-Ensures job =
      Ensures-call (Call.complete_repair job) _ (λ log v h same. completed h.1 h.0)
        (λ log e h same. completed h.1 h.0)

  Keeps-throw_if : (b : Bool) (e : Thrown) → Keeps (throw_if b e)
  Keeps-throw_if true e = record { apply = λ log p. p }
  Keeps-throw_if false e = record { apply = λ log p. p }

  Keeps-clean : (t : ResolvedProviderWriteTarget) → Keeps (clean digest c t)
  Keeps-clean t = Keeps-call (Call.cleanup t) _ refl

  Keeps-cleaned_if : (b : Bool) (t : ResolvedProviderWriteTarget) → Keeps (cleaned_if digest c b t)
  Keeps-cleaned_if true t = Ensures-bind (Keeps-clean t) (λ r. Ensures-pure tt)
  Keeps-cleaned_if false t = Ensures-pure tt

  Keeps-unless_raced :
      (job : RepairJob) (e : Thrown) (v : Verdict)
      → Ensures (Verified job v) (unless_raced digest c job e v) (λ _. P) P
  Keeps-unless_raced job e verified = record { apply = λ log h. h.0 }
  Keeps-unless_raced job e missing =
      Ensures-bind (Keeps-cleaned_if (requires_cleanup e) job.target_write_target)
        (λ u. Ensures-throw e)
  Keeps-unless_raced job e mismatch =
      Ensures-bind (Keeps-cleaned_if (requires_cleanup e) job.target_write_target)
        (λ u. Ensures-throw e)

  Keeps-write_failed : (job : RepairJob) (e : Thrown) → Keeps (write_failed digest c job e)
  unfolding write_failed
  Keeps-write_failed job e = Ensures-bind (Keeps-verify job) (Keeps-unless_raced job e)

  Keeps-exact_or_cleaned : (job : RepairJob) (b : Bool) → Keeps (exact_or_cleaned digest c job b)
  Keeps-exact_or_cleaned job true = Ensures-pure tt
  Keeps-exact_or_cleaned job false =
      Ensures-bind (Keeps-clean job.target_write_target) (λ r. Ensures-throw _)

  Keeps-write_mirrored :
      (job : RepairJob) (source : Opened) (w : ℕ × Result Thrown (Unit {0}))
      → Keeps (write_mirrored digest c job source w)
  Keeps-write_mirrored job source (pulls, reply) =
      Ensures-bind
        (Ensures-catch (Keeps-call (Call.write job.target_write_target) (λ _. reply) refl)
          (Keeps-write_failed job))
        (λ u. Keeps-exact_or_cleaned job _)

  Keeps-transfer : (job : RepairJob) (source : Opened) → Keeps (transfer digest c job source)
  unfolding transfer
  Keeps-transfer job source = Ensures-bind (Keeps-throw_if _ _) (λ u. record {
    apply = λ log p.
        (Keeps-write_mirrored job source (c.write log job.target_write_target)).apply log p;
  })

  Keeps-completed_if :
      (job : RepairJob) (v : Verdict)
      → Ensures (Verified job v) (completed_if digest c job v) (λ _. P) P
  Keeps-completed_if job verified = complete-Ensures job
  Keeps-completed_if job missing =
      Ensures-bind (Keeps-clean job.target_write_target) (λ r. Ensures-throw _)
  Keeps-completed_if job mismatch =
      Ensures-bind (Keeps-clean job.target_write_target) (λ r. Ensures-throw _)

  Keeps-copy_source : (job : RepairJob) → Keeps (copy_source digest c job)
  unfolding copy_source
  Keeps-copy_source job =
      Ensures-bind
        (Ensures-catch (Keeps-call (Call.read job.source_target) _ refl) (λ e. Ensures-throw _))
        (λ source.
          Ensures-bind
            (Ensures-finally (Keeps-transfer job source) (λ v log p. other refl p)
              (λ log p. other refl p))
            (λ u. Ensures-bind (Keeps-verify job) (Keeps-completed_if job)))

  Keeps-repaired :
      (job : RepairJob) (v : Verdict)
      → Ensures (Verified job v) (repaired digest c job v) (λ _. P) P
  Keeps-repaired job verified = complete-Ensures job
  Keeps-repaired job missing = Keeps-copy_source job
  Keeps-repaired job mismatch =
      Ensures-bind (Keeps-clean job.target_write_target)
        (λ r. Ensures-bind (Keeps-throw_if _ _) (λ u. Keeps-copy_source job))

  Keeps-process_repair : (job : RepairJob) → Keeps (process_repair digest c job)
  unfolding process_repair repair
  Keeps-process_repair job =
      Ensures-catch (Ensures-bind (Keeps-verify job) (Keeps-repaired job))
        (λ e. Keeps-call (Call.fail_repair job (failure_of (normalized_error e))) _ refl)

  Ends-log : {A : Type 0} (r : Result Thrown A × List Call) → Ends (λ _. P) P r → P r.1
  Ends-log (ok v, log) p = p
  Ends-log (err e, log) p = p

  -- However the provider, the registry and the streams reply, `processRepair` completes a repair only
  -- directly after it has read the replica and found the expected length and digest: if each
  -- completion among the calls before stands so, then each among the calls after it does.
  pub process_repair-IsJustified :
      (job : RepairJob) (log : List Call)
      → IsJustified log
      → IsJustified (process_repair digest c job log).1
  process_repair-IsJustified job log p = Ends-log _ ((Keeps-process_repair job).apply log p)

-- The last call is a completion of the repair that the registry accepted, or records its failure.
pub data IsSettled (c : Collaborators) (job : RepairJob) : List Call → Type 0 where
  by_completion :
      (log : List Call)
      → c.complete_repair log job ≡ ok tt
      → IsSettled c job (Call.complete_repair job ∷ log)
  by_failure : (f : Failure) (log : List Call) → IsSettled c job (Call.fail_repair job f ∷ log)

module _ (digest : List ℕ → String) (c : Collaborators) (job : RepairJob) where
  abbrev Any : List Call → Type 0
  Any _ = Unit {0}

  abbrev Settles : Action (Unit {0}) → Type 0
  Settles m = Ensures Any m (λ _. IsSettled c job) Any

  Settles-complete : Settles (complete digest c job)
  Settles-complete =
      Ensures-call (Call.complete_repair job) _ (λ log v p same. by_completion log same)
        (λ log e p same. tt)

  Settles-after :
      {A : Type 0} (m : Action A) (next : A → Action (Unit {0}))
      → ((v : A) → Settles (next v))
      → Settles (m >>= next)
  Settles-after m next later = Ensures-bind (Ensures-any m) later

  Settles-throw : (e : Thrown) → Settles (throw e)
  Settles-throw e = record { apply = λ log p. tt }

  Settles-completed_if : (v : Verdict) → Settles (completed_if digest c job v)
  Settles-completed_if verified = Settles-complete
  Settles-completed_if missing = Settles-after _ _ (λ r. Settles-throw _)
  Settles-completed_if mismatch = Settles-after _ _ (λ r. Settles-throw _)

  Settles-copy_source : Settles (copy_source digest c job)
  unfolding copy_source
  Settles-copy_source = Settles-after (open_source digest c job) _ (λ source.
      Settles-after (try_finally (transfer digest c job source) (Call.close job.source_target)) _
        (λ u. Settles-after (verify_target digest c job) _ Settles-completed_if))

  Settles-repaired : (v : Verdict) → Settles (repaired digest c job v)
  Settles-repaired verified = Settles-complete
  Settles-repaired missing = Settles-copy_source
  Settles-repaired mismatch =
      Settles-after (clean digest c job.target_write_target) _
        (λ r. Settles-after (throw_if _ _) _ (λ u. Settles-copy_source))

  Ends-IsSettled :
      (r : Result Thrown (Unit {0}) × List Call)
      → Ends (λ _. IsSettled c job) (IsSettled c job) r
      → IsSettled c job r.1
  Ends-IsSettled (ok v, log) p = p
  Ends-IsSettled (err e, log) p = p

  -- On every path, `processRepair` ends with a call that completes the repair and that the registry
  -- accepted, or with the call that records the failure of the repair. So the failure is recorded also
  -- when the registry refuses the completion.
  pub process_repair-IsSettled :
      (log : List Call) → IsSettled c job (process_repair digest c job log).1
  unfolding process_repair repair
  process_repair-IsSettled log = Ends-IsSettled _ (
      (Ensures-catch {R = Any} (Settles-after (verify_target digest c job) _ Settles-repaired) (λ e.
          Ensures-call _ _ (λ log v p same. by_failure _ log)
            (λ log e p same. by_failure _ log))).apply
        log tt)
