-- ===== src/Replicas/Worker/Retention.antt =====
-- src/runtime-replica-protection.ts: what `processRetention` ensures of the calls it makes.
use z_s_app.Prelude.{
  ℕ, ◌≡◌, refl, sym, subst, String, Bool, true, false, not, List, [], ◌∷◌, Result, ok, err, All,
}
use z_s_app.Prelude.Run.{
  ◌>>=◌, Ends, Ensures, Ensures-bind, Ensures-catch, Ensures-weaken, Ensures-call, Ensures-pure,
  pure,
}
use z_s_app.Replicas.Errors.{Thrown}
use z_s_app.Replicas.Jobs.{
  RetentionJob, RetentionClaim, ProtectionCopy, CleanupResult, Failure, Call, Collaborators,
}
use z_s_app.Replicas.Verify.{Verdict, verified, missing, mismatch, verify_provider_object}
use z_s_app.Replicas.Verify.Reads.{IsVerifiedRead, After, verify_provider_object-Ensures}
use z_s_app.Replicas.Worker.{
  Action, processed, throw_if, fail_retention, check_rest, check_copies, retained, retain,
  process_retention,
}

-- the calls that need no protection
abbrev pub is_harmless : Call → Bool
is_harmless (Call.cleanup target) = false
is_harmless (Call.complete_retention job) = false
is_harmless _ = true

module _ (digest : List ℕ → String) (c : Collaborators) (job : RetentionJob) where
  -- a verified read of a protection copy, now or earlier
  pub data WasVerified (p : ProtectionCopy) : List Call → Type 0 where
    now :
        {log : List Call}
        → IsVerifiedRead digest c p.target job.expected_checksum_sha256 job.expected_byte_length log
        → WasVerified p log
    earlier : {k : Call} {log : List Call} → WasVerified p log → WasVerified p (k ∷ log)

  abbrev pub AreVerified : List ProtectionCopy → List Call → Type 0
  AreVerified copies log = All (λ p. WasVerified p log) copies

  -- The primary is deleted only after verified reads of all protection copies, and the retention is
  -- completed only directly after the provider has reported the deletion.
  pub data IsGuarded : List Call → Type 0 where
    none_yet : IsGuarded []
    harmless :
        {k : Call} {log : List Call} → is_harmless k ≡ true → IsGuarded log → IsGuarded (k ∷ log)
    deleted :
        {log : List Call}
        → AreVerified job.protection_copies log
        → IsGuarded log
        → IsGuarded (Call.cleanup job.primary_target ∷ log)
    completed :
        {log : List Call} (r : CleanupResult)
        → c.cleanup log job.primary_target ≡ ok r
        → r.deleted ≡ true
        → IsGuarded (Call.cleanup job.primary_target ∷ log)
        → IsGuarded (Call.complete_retention job ∷ Call.cleanup job.primary_target ∷ log)

  abbrev P : List Call → Type 0
  P = IsGuarded

  abbrev Q : List ProtectionCopy → List Call → Type 0
  Q copies log = P log × AreVerified copies log

  abbrev Checked : List ProtectionCopy → Bool → List Call → Type 0
  Checked copies true log = Q copies log
  Checked copies false log = P log

  fail_retention-Ensures : (f : Failure) → Ensures P (fail_retention digest c job f) (λ _. P) P
  fail_retention-Ensures f =
      Ensures-call (Call.fail_retention job f) _ (λ log v p same. harmless refl p)
        (λ log e p same. harmless refl p)

  All-WasVerified :
      (copies : List ProtectionCopy) (k : Call) (log : List Call)
      → AreVerified copies log
      → AreVerified copies (k ∷ log)
  All-WasVerified [] k log h = h
  All-WasVerified (p ∷ rest) k log (h, hs) = (earlier h, All-WasVerified rest k log hs)

  abbrev CheckedWith : (List Call → Type 0) → List ProtectionCopy → Bool → List Call → Type 0
  CheckedWith S rest true log = (P log × S log) × AreVerified rest log
  CheckedWith S rest false log = P log

  abbrev IsKept : (List Call → Type 0) → Type 0
  IsKept S = (k : Call) (log : List Call) → S log → S (k ∷ log)

  abbrev AfterRead : (List Call → Type 0) → ProtectionCopy → Verdict → List Call → Type 0
  AfterRead S p =
      After digest c p.target job.expected_checksum_sha256 job.expected_byte_length
        (λ log. P log × S log)

  AfterRead-Ensures :
      (S : List Call → Type 0) (p : ProtectionCopy)
      → IsKept S
      → Ensures
          (λ log. P log × S log)
          (verify_provider_object digest c p.target job.expected_checksum_sha256
            job.expected_byte_length)
          (AfterRead S p)
          P
  AfterRead-Ensures S p keep =
      Ensures-weaken
        (verify_provider_object-Ensures digest c p.target job.expected_checksum_sha256
          job.expected_byte_length (λ log. P log × S log)
          (λ log h. (harmless refl h.0, keep _ log h.1))
          (λ log h. (harmless refl h.0, keep _ log h.1)))
        (λ log h. h) (λ v log h. h) (λ log h. h.0)

  refuse-Ensures :
      (S : List Call → Type 0) (f : Failure) (rest : List ProtectionCopy)
      → Ensures
          (λ log. P log × S log)
          (fail_retention digest c job f >>= λ _. pure false)
          (CheckedWith S rest)
          P
  refuse-Ensures S f rest =
      Ensures-bind
        (Ensures-weaken (fail_retention-Ensures f) (λ log h. h.0) (λ v log h. h) (λ log h. h))
        (λ u. record { apply = λ log h. h })

  checked-CheckedWith :
      (S : List Call → Type 0) (p : ProtectionCopy) (rest : List ProtectionCopy) (v : Bool)
      (log : List Call)
      → CheckedWith (λ log. S log × WasVerified p log) rest v log
      → CheckedWith S (p ∷ rest) v log
  checked-CheckedWith S p rest true log h = ((h.0.0, h.0.1.0), (h.0.1.1, h.1))
  checked-CheckedWith S p rest false log h = h

  check_rest-Ensures :
      (S : List Call → Type 0) (p : ProtectionCopy) (rest : List ProtectionCopy)
      → Ensures
          (λ log. P log × (S log × WasVerified p log))
          (check_copies digest c job rest)
          (CheckedWith (λ log. S log × WasVerified p log) rest)
          P
      → (v : Verdict)
      → Ensures
          (AfterRead S p v)
          (check_rest digest c job p (check_copies digest c job rest) v)
          (CheckedWith S (p ∷ rest))
          P
  check_rest-Ensures S p rest later verified =
      Ensures-weaken later (λ log h. (h.0.0, (h.0.1, now h.1))) (checked-CheckedWith S p rest)
        (λ log h. h)
  check_rest-Ensures S p rest later missing = refuse-Ensures S _ (p ∷ rest)
  check_rest-Ensures S p rest later mismatch = refuse-Ensures S _ (p ∷ rest)

  check_copies-Ensures :
      (S : List Call → Type 0) (rest : List ProtectionCopy)
      → IsKept S
      → Ensures (λ log. P log × S log) (check_copies digest c job rest) (CheckedWith S rest) P
  unfolding check_copies
  check_copies-Ensures S [] keep = record { apply = λ log h. (h, tt) }
  check_copies-Ensures S (p ∷ rest) keep = Ensures-bind (AfterRead-Ensures S p keep) (
      check_rest-Ensures S p rest (
        check_copies-Ensures (λ log. S log × WasVerified p log) rest
          (λ k log h. (keep k log h.0, earlier h.1))))

  Deleted : CleanupResult → List Call → Type 0
  Deleted r log =
      (log0 : List Call) × ((log ≡ Call.cleanup job.primary_target ∷ log0)
        × ((c.cleanup log0 job.primary_target ≡ ok r) × P log))

  abbrev Guards : {A : Type 0} → Action A → Type 0
  Guards m = Ensures P m (λ _. P) P

  Deleted-Guarded : (r : CleanupResult) (log : List Call) → Deleted r log → P log
  unfolding Deleted
  Deleted-Guarded r log (log0, (called, (replied, p))) = p

  reported-Ensures :
      (r : CleanupResult) (b : Bool) (e : Thrown)
      → r.deleted ≡ b
      → Ensures (Deleted r) (throw_if (not b) e) (λ _ log. Deleted r log × (r.deleted ≡ true)) P
  reported-Ensures r true e same = record { apply = λ log h. (h, same) }
  reported-Ensures r false e same = record { apply = λ log h. Deleted-Guarded r log h }

  completed-Guarded :
      (r : CleanupResult) (log : List Call)
      → Deleted r log × (r.deleted ≡ true)
      → P (Call.complete_retention job ∷ log)
  unfolding Deleted
  completed-Guarded r log ((log0, (called, (replied, p))), reported) =
      subst (λ l. P (Call.complete_retention job ∷ l)) (sym called)
        (completed r replied reported (subst P called p))

  retained-Ensures :
      (b : Bool)
      → Ensures
          (CheckedWith (λ _. Unit {0}) job.protection_copies b)
          (retained digest c job b)
          (λ _. P)
          P
  unfolding Deleted
  retained-Ensures false = record { apply = λ log h. h }
  retained-Ensures true =
      Ensures-bind {Q = Deleted}
        (Ensures-call (Call.cleanup job.primary_target) _
          (λ log v h same. (log, (refl, (same, deleted h.1 h.0.0))))
          (λ log e h same. deleted h.1 h.0.0))
        (λ r. Ensures-bind (reported-Ensures r r.deleted _ refl) (λ u.
          Ensures-bind
            (Ensures-call {Q = λ _. P} (Call.complete_retention job) _
              (λ log v h same. completed-Guarded r log h)
              (λ log e h same. completed-Guarded r log h))
            (λ done. Ensures-pure processed)))

  retain-Ensures : Guards (retain digest c job)
  unfolding retain
  retain-Ensures =
      Ensures-bind
        (Ensures-weaken (check_copies-Ensures (λ _. Unit {0}) job.protection_copies (λ k log u. tt))
          (λ log p. (p, tt)) (λ v log h. h) (λ log h. h))
        retained-Ensures

  process_retention-Ensures : Guards (process_retention digest c (RetentionClaim.job job))
  unfolding process_retention
  process_retention-Ensures =
      Ensures-catch retain-Ensures
        (λ e. Ensures-bind (fail_retention-Ensures _) (λ u. record { apply = λ log p. p }))

  Ends-log : {A : Type 0} (r : Result Thrown A × List Call) → Ends (λ _. P) P r → P r.1
  Ends-log (ok v, log) p = p
  Ends-log (err e, log) p = p

  -- However the provider, the registry and the streams reply, `processRetention` deletes the primary
  -- only after it has read every protection copy and found the expected length and digest, and
  -- completes the retention only directly after the provider has reported the deletion, if this holds
  -- of the calls made before.
  pub process_retention-IsGuarded :
      (log : List Call)
      → IsGuarded log
      → IsGuarded (process_retention digest c (RetentionClaim.job job) log).1
  process_retention-IsGuarded log p = Ends-log _ (process_retention-Ensures.apply log p)
