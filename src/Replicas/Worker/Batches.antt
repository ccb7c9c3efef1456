-- ===== src/Replicas/Worker/Batches.antt =====
-- src/runtime-replica-protection.ts: what `BoundedReplicaProtectionWorker` counts.
use z_s_app.Prelude.{
  ℕ, zero, suc, ◌+◌, String, ◌≡◌, refl, Option, none, some, List, Result, ok, err, arith,
}
use z_s_app.Prelude.Run.{
  ◌>>=◌, Ends, Ensures, Ensures-bind, Ensures-catch, Ensures-call, Ensures-any, Ensures-weaken,
  pure, call, try_catch,
}
use z_s_app.Replicas.Errors.{Thrown}
use z_s_app.Replicas.Jobs.{RepairJob, RetentionClaim, Call, Collaborators}
use z_s_app.Replicas.Worker.{
  Action, Step, processed, blocked, idle, BatchResult, empty_batch, repair_batch_size,
  retention_batch_size, process_repair, process_retention, repair_round, repair_rounds,
  run_repair_batch, counted, retention_round, retention_rounds, run_retention_batch,
}

-- the rounds that are counted
abbrev pub total : BatchResult → ℕ
total b = b.processed + b.idle + b.failed + b.blocked

module _ (digest : List ℕ → String) (c : Collaborators) where
  abbrev Any : List Call → Type 0
  Any _ = Unit {0}

  abbrev Never : List Call → Type 0
  Never _ = ⊥

  -- The action returns a result that counts `n` rounds.
  abbrev Counts : ℕ → Action BatchResult → Type 0
  Counts n m = Ensures Any m (λ b _. total b ≡ n) Never

  Counts-attempt :
      {A : Type 0} (n : ℕ) (m : Action A) (next : A → Action BatchResult) (otherwise : BatchResult)
      → ((v : A) → Counts n (next v))
      → total otherwise ≡ n
      → Counts n (try_catch (m >>= next) (λ _. pure otherwise))
  Counts-attempt n m next otherwise later same =
      Ensures-catch {R = Any}
        (Ensures-bind (Ensures-any m)
          (λ v. Ensures-weaken (later v) (λ log h. h) (λ b log h. h) (λ log h. tt)))
        (λ e. record { apply = λ log h. same })

  repair_round-Counts :
      (b : BatchResult) (job : Option RepairJob)
      → Counts (suc (total b)) (repair_round digest c b job)
  unfolding repair_round
  repair_round-Counts b none = record { apply = λ log h. ground arith }
  repair_round-Counts b (some job) =
      Counts-attempt _ (process_repair digest c job) _ _
        (λ v. record { apply = λ log h. ground arith }) (ground arith)

  counted-total : (b : BatchResult) (step : Step) → total (counted digest c b step) ≡ suc (total b)
  counted-total b processed = ground arith
  counted-total b blocked = ground arith
  counted-total b idle = ground arith

  retention_round-Counts :
      (b : BatchResult) (claim : RetentionClaim)
      → Counts (suc (total b)) (retention_round digest c b claim)
  unfolding retention_round
  retention_round-Counts b claim =
      Counts-attempt _ (process_retention digest c claim) _ _
        (λ v. record { apply = λ log h. counted-total b v }) (ground arith)

  -- the claims do not throw
  abbrev Claims : {A : Type 0} → (List Call → ℕ → Result Thrown A) → Type 0
  Claims {A} claim = (log : List Call) (index : ℕ) → (job : A) × (claim log index ≡ ok job)

  Claims-call :
      {A : Type 0} (claim : List Call → ℕ → Result Thrown A) (k : Call) (index : ℕ)
      → Claims claim
      → Ensures Any (call k (λ log. claim log index)) (λ _. Any) Never
  Claims-call claim k index claims =
      Ensures-call k _ (λ log v h same. tt)
        (λ log e h same. absurd (grind (arith, (claims log index).1)))

  repair_rounds-Counts :
      (rounds index : ℕ) (b : BatchResult)
      → Claims c.claim_repair
      → (n : ℕ) → n ≡ rounds + total b
      → Counts n (repair_rounds digest c rounds index b)
  unfolding repair_rounds
  repair_rounds-Counts zero index b claims n counted = record { apply = λ log h. omega arith }
  repair_rounds-Counts (suc rounds) index b claims n counted =
      Ensures-bind (Claims-call c.claim_repair (Call.claim_repair index) index claims) (λ job.
        Ensures-bind (repair_round-Counts b job) (λ b'. record {
          apply = λ log same.
              (repair_rounds-Counts rounds (index + 1) b' claims n (omega arith)).apply log tt;
        }))

  retention_rounds-Counts :
      (rounds index : ℕ) (b : BatchResult)
      → Claims c.claim_retention
      → (n : ℕ) → n ≡ rounds + total b
      → Counts n (retention_rounds digest c rounds index b)
  unfolding retention_rounds
  retention_rounds-Counts zero index b claims n counted = record { apply = λ log h. omega arith }
  retention_rounds-Counts (suc rounds) index b claims n counted =
      Ensures-bind (Claims-call c.claim_retention (Call.claim_retention index) index claims) (λ job.
        Ensures-bind (retention_round-Counts b job) (λ b'. record {
          apply = λ log same.
              (retention_rounds-Counts rounds (index + 1) b' claims n (omega arith)).apply log tt;
        }))

  Ends-Returns :
      (n : ℕ) (r : Result Thrown BatchResult × List Call)
      → Ends (λ b _. total b ≡ n) Never r
      → (b : BatchResult) × ((r.0 ≡ ok b) × (total b ≡ n))
  Ends-Returns n (ok b, log) same = (b, (refl, same))
  Ends-Returns n (err e, log) h = absurd h

  -- While the claims of jobs do not throw, a repair batch returns a result, which counts each of its
  -- two rounds once, whatever the jobs do.
  pub run_repair_batch-total :
      Claims c.claim_repair
      → (log : List Call)
      → (b : BatchResult) × (((run_repair_batch digest c log).0 ≡ ok b)
          × (total b ≡ repair_batch_size))
  unfolding run_repair_batch
  run_repair_batch-total claims log = Ends-Returns repair_batch_size _ (
      (repair_rounds-Counts repair_batch_size 1 empty_batch claims repair_batch_size refl).apply log
        tt)

  -- While the claim of a job does not throw, a retention batch returns a result, which counts its one
  -- round once, whatever the job does.
  pub run_retention_batch-total :
      Claims c.claim_retention
      → (log : List Call)
      → (b : BatchResult) × (((run_retention_batch digest c log).0 ≡ ok b)
          × (total b ≡ retention_batch_size))
  unfolding run_retention_batch
  run_retention_batch-total claims log = Ends-Returns retention_batch_size _ (
      (retention_rounds-Counts retention_batch_size 1 empty_batch claims retention_batch_size
          refl).apply
        log tt)
