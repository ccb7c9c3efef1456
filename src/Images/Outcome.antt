-- ===== src/Images/Outcome.antt =====
-- src/image-derivative.ts: each claimed job is completed or failed, once.
use z_s_app.Prelude.{ℕ, ◌⊎◌, String, ◌≡◌, true, List, [], ◌∷◌, ◌++◌, ok, err}
use z_s_app.Images.Errors.{Thrown, normalize_error, is_safe_code}
use z_s_app.Images.{
  ImageDerivativeJob, ImageDerivativeFailure, Call, Run, Collaborators, Step, work, work_or_recover,
  closing, failure_of, cleanup_failure,
}
use z_s_app.Images.Settlement.{IsCompleted}

module _ (digest : List ℕ → String) (c : Collaborators) (job : ImageDerivativeJob) where
  -- How a run of a claimed job ends, with all the calls that it made.
  pub data Settled (calls : List Call) : Type 0 where
    completed :
        IsCompleted digest c job
        → calls
          ≡ Call.claim_next ∷ Call.read ∷ Call.process ∷ Call.write ∷ Call.complete ∷ Call.close
            ∷ []
        → Settled calls
    failed :
        (e : Thrown) (f : ImageDerivativeFailure)
        → (work digest c job).1 ≡ err e
        → is_safe_code f.code ≡ true
        → (c.cleanup job ≡ ok tt) × (f ≡ failure_of digest (normalize_error e))
          ⊎ (f ≡ cleanup_failure digest)
        → calls
          ≡ Call.claim_next
            ∷ (((work digest c job).0 ++ Call.cleanup ∷ Call.fail f ∷ [])
                ++ closing digest (c.read job))
        → Settled calls

  -- the run of the `try`, with its `catch`
  abbrev tried : Run Step
  tried = work_or_recover digest c job (work digest c job)

  with_ending : List Call → List Call → List Call
  with_ending body ending = Call.claim_next ∷ (body ++ ending)
