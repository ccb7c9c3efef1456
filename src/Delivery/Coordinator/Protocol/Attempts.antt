-- ===== src/Delivery/Coordinator/Protocol/Attempts.antt =====
-- src/runtime-read-delivery.ts: how one attempt is begun and finished.
use z_s_app.Prelude.{
  ℕ, ◌≡◌, refl, String, Bool, true, false, not, Option, none, some, List, [], ◌∷◌, ok, err, nat_beq,
}
use z_s_app.Prelude.Run.Raising.{Raises, Raises-bind, Raises-catch, Raises-weaken, Raises-call}
use z_s_app.Delivery.Errors.{Thrown, Category, refuses}
use z_s_app.Delivery.Attempt.{
  Action, BeginInput, Attempt, Method, head_only, get_body, Body, DeliveryResult, Outcome, Call,
  Collaborators, throw_if, finalize_attempt, headed, gotten, read_copy, attempt_failed, attempt,
  delivery_result, begin_input, provider_range_of, length_mismatch,
}

-- No attempt was begun; or the last one is not finished; or its finish was refused by the registry, or
-- recorded.
pub data Phase : Type 0 where
  idle : Phase
  running unrecorded recorded : String → Phase

abbrev pub is_open : Phase → Bool
is_open (running id) = true
is_open (unrecorded id) = true
is_open _ = false

-- the calls that neither begin nor finish an attempt
abbrev pub is_quiet : Call → Bool
is_quiet (Call.begin_attempt b) = false
is_quiet (Call.finish_attempt id outcome) = false
is_quiet _ = true

-- what is thrown where the registry refuses a finish
abbrev pub recording_failed : Thrown
recording_failed = refuses Category.dependency_unavailable "read-attempt-recording-failed" 503 true

module _ (c : Collaborators) where
  -- An attempt is begun only when none is open, and only the last one is finished. It is finished by
  -- the first call that the registry accepts.
  pub data IsTidy : Phase → List Call → Type 0 where
    at_start : IsTidy idle []
    quiet :
        {phase : Phase} {k : Call} {log : List Call}
        → is_quiet k ≡ true
        → IsTidy phase log
        → IsTidy phase (k ∷ log)
    begun :
        {phase : Phase} {b : BeginInput} {log : List Call} (id : String)
        → is_open phase ≡ false
        → c.begin_attempt log b ≡ ok id
        → IsTidy phase log
        → IsTidy (running id) (Call.begin_attempt b ∷ log)
    not_begun :
        {phase : Phase} {b : BeginInput} {log : List Call} (e : Thrown)
        → is_open phase ≡ false
        → c.begin_attempt log b ≡ err e
        → IsTidy phase log
        → IsTidy phase (Call.begin_attempt b ∷ log)
    finished :
        {id : String} {outcome : Outcome} {log : List Call}
        → c.finish_attempt log id outcome ≡ ok tt
        → IsTidy (running id) log
        → IsTidy (recorded id) (Call.finish_attempt id outcome ∷ log)
    refused :
        {id : String} {outcome : Outcome} {log : List Call} (e : Thrown)
        → c.finish_attempt log id outcome ≡ err e
        → IsTidy (running id) log
        → IsTidy (unrecorded id) (Call.finish_attempt id outcome ∷ log)
    finished_late :
        {id : String} {outcome : Outcome} {log : List Call}
        → c.finish_attempt log id outcome ≡ ok tt
        → IsTidy (unrecorded id) log
        → IsTidy (recorded id) (Call.finish_attempt id outcome ∷ log)
    refused_again :
        {id : String} {outcome : Outcome} {log : List Call} (e : Thrown)
        → c.finish_attempt log id outcome ≡ err e
        → IsTidy (unrecorded id) log
        → IsTidy (unrecorded id) (Call.finish_attempt id outcome ∷ log)
    finished_again :
        {id : String} {outcome : Outcome} {log : List Call}
        → IsTidy (recorded id) log
        → IsTidy (recorded id) (Call.finish_attempt id outcome ∷ log)

  -- No attempt is open.
  pub record IsAtRest (log : List Call) : Type 0 where
    pub phase : Phase
    pub closed : is_open phase ≡ false
    pub tidy : IsTidy phase log

  -- What an error leaves: no attempt is open, or one whose finish was refused, and then the error says
  -- so.
  pub data IsLeftBy : Thrown → List Call → Type 0 where
    at_rest : {e : Thrown} {log : List Call} → IsAtRest log → IsLeftBy e log
    unfinished :
        {log : List Call} (id : String) → IsTidy (unrecorded id) log → IsLeftBy recording_failed log

  data WasOpened (id : String) (log : List Call) : Type 0 where
    while_running : IsTidy (running id) log → WasOpened id log
    while_unrecorded : IsTidy (unrecorded id) log → WasOpened id log
    once_recorded : IsTidy (recorded id) log → WasOpened id log

  -- The stream of a body finishes the attempt that is open.
  abbrev pub EndsBody : Option Body → List Call → Type 0
  EndsBody none log = IsAtRest log
  EndsBody (some b) log = IsTidy (running b.provider_attempt_id) log

  abbrev pub Ended : DeliveryResult → List Call → Type 0
  Ended r log = EndsBody r.body log

  recorded-IsAtRest : (id : String) (log : List Call) → IsTidy (recorded id) log → IsAtRest log
  recorded-IsAtRest id log p = record { phase = recorded id; closed = refl; tidy = p }

  finish-accepted :
      (id : String) (outcome : Outcome) (log : List Call)
      → c.finish_attempt log id outcome ≡ ok tt
      → WasOpened id log
      → IsTidy (recorded id) (Call.finish_attempt id outcome ∷ log)
  finish-accepted id outcome log same (while_running p) = finished same p
  finish-accepted id outcome log same (while_unrecorded p) = finished_late same p
  finish-accepted id outcome log same (once_recorded p) = finished_again p

  -- what a refused finish leaves
  data IsRefused (id : String) (log : List Call) : Type 0 where
    still_open : IsTidy (unrecorded id) log → IsRefused id log
    recorded_before : IsTidy (recorded id) log → IsRefused id log

  finish-IsRefused :
      (id : String) (outcome : Outcome) (log : List Call) (e : Thrown)
      → c.finish_attempt log id outcome ≡ err e
      → WasOpened id log
      → IsRefused id (Call.finish_attempt id outcome ∷ log)
  finish-IsRefused id outcome log e same (while_running p) = still_open (refused e same p)
  finish-IsRefused id outcome log e same (while_unrecorded p) = still_open (refused_again e same p)
  finish-IsRefused id outcome log e same (once_recorded p) = recorded_before (finished_again p)

  refused-IsLeftBy :
      (id : String) (log : List Call) → IsRefused id log → IsLeftBy recording_failed log
  refused-IsLeftBy id log (still_open p) = unfinished id p
  refused-IsLeftBy id log (recorded_before p) = at_rest (recorded-IsAtRest id log p)

  refused-WasOpened : (id : String) (log : List Call) → IsRefused id log → WasOpened id log
  refused-WasOpened id log (still_open p) = while_unrecorded p
  refused-WasOpened id log (recorded_before p) = once_recorded p

  -- A refused finish throws `recording_failed`.
  data Refusal (id : String) : Thrown → List Call → Type 0 where
    refusal : {log : List Call} → IsRefused id log → Refusal id recording_failed log

  finalize-Raises :
      (id : String) (outcome : Outcome)
      → Raises
          (WasOpened id)
          (finalize_attempt c id outcome)
          (λ _. IsTidy (recorded id))
          (Refusal id)
  unfolding finalize_attempt
  finalize-Raises id outcome =
      Raises-catch {R = λ e. IsRefused id}
        (Raises-call (Call.finish_attempt id outcome) _
          (λ log v p same. finish-accepted id outcome log same p)
          (λ log e p same. finish-IsRefused id outcome log e same p))
        (λ e. record { apply = λ log p. refusal p })

  Refusal-IsLeftBy :
      (id : String) (e : Thrown) (log : List Call) → Refusal id e log → IsLeftBy e log
  Refusal-IsLeftBy id e log (refusal p) = refused-IsLeftBy id log p

  Refusal-WasOpened :
      (id : String) (e : Thrown) (log : List Call) → Refusal id e log → WasOpened id log
  Refusal-WasOpened id e log (refusal p) = refused-WasOpened id log p

  throw_if-Raises :
      (id : String) (b : Bool) (e : Thrown)
      → Raises (IsTidy (running id)) (throw_if b e) (λ _. WasOpened id) (λ _. WasOpened id)
  throw_if-Raises id true e = record { apply = λ log p. while_running p }
  throw_if-Raises id false e = record { apply = λ log p. while_running p }

  headed-Raises :
      (a : Attempt) (id : String) (observed : ℕ)
      → Raises (IsTidy (running id)) (headed c a id observed) Ended (λ _. WasOpened id)
  unfolding delivery_result
  headed-Raises a id observed =
      Raises-bind (throw_if-Raises id (not (nat_beq observed a.total)) length_mismatch) (λ u.
        Raises-bind
          (Raises-weaken (finalize-Raises id (Outcome.succeeded observed)) (λ log p. p)
            (λ v log p. p) (Refusal-WasOpened id))
          (λ u'.
            Raises-bind
              (Raises-call {Q = λ _. IsTidy (recorded id)} (Call.append_event a)
                (λ log. c.append_event log a) (λ log v p same. quiet refl p)
                (λ log e p same. once_recorded (quiet refl p)))
              (λ u''. record { apply = recorded-IsAtRest id })))

  gotten-Raises :
      (a : Attempt) (id : String) (observed : ℕ) (b : Bool)
      → Raises (IsTidy (running id)) (gotten c a id observed b) Ended (λ _. WasOpened id)
  unfolding delivery_result
  gotten-Raises a id observed true = record { apply = λ log p. p }
  gotten-Raises a id observed false = record { apply = λ log p. while_running (quiet refl p) }

  read_copy-Raises :
      (a : Attempt) (id : String) (method : Method)
      → Raises (IsTidy (running id)) (read_copy c a id method) Ended (λ _. WasOpened id)
  read_copy-Raises a id head_only =
      Raises-bind
        (Raises-call {Q = λ _. IsTidy (running id)} (Call.head a.copy.target) _
          (λ log v p same. quiet refl p) (λ log e p same. while_running (quiet refl p)))
        (headed-Raises a id)
  read_copy-Raises a id get_body =
      Raises-bind
        (Raises-call {Q = λ _. IsTidy (running id)}
          (Call.get a.copy.target (provider_range_of a.range)) _ (λ log v p same. quiet refl p)
          (λ log e p same. while_running (quiet refl p)))
        (λ observed. gotten-Raises a id observed (nat_beq observed a.expected_length))

  attempt_failed-Raises :
      (id : String) (e : Thrown) → Raises (WasOpened id) (attempt_failed c id e) Ended IsLeftBy
  attempt_failed-Raises id e =
      Raises-bind
        (Raises-weaken (finalize-Raises id _) (λ log p. p) (λ v log p. p) (Refusal-IsLeftBy id))
        (λ u. record { apply = λ log p. at_rest (recorded-IsAtRest id log p) })

  abbrev pub Delivers : Action DeliveryResult → Type 0
  Delivers m = Raises IsAtRest m Ended IsLeftBy

  pub attempt-Delivers : (a : Attempt) → Delivers (attempt c a)
  unfolding attempt
  attempt-Delivers a =
      Raises-bind
        (Raises-call {Q = λ id. IsTidy (running id)} (Call.begin_attempt (begin_input a)) _
          (λ log v p same. begun v p.closed same p.tidy)
          (λ log e p same. at_rest (record {
            phase = p.phase;
            closed = p.closed;
            tidy = not_begun e p.closed same p.tidy;
          })))
        (λ id. Raises-catch (read_copy-Raises a id a.input.method) (attempt_failed-Raises id))

  pub quiet-IsAtRest :
      (k : Call) (log : List Call) → is_quiet k ≡ true → IsAtRest log → IsAtRest (k ∷ log)
  quiet-IsAtRest k log h p = record { phase = p.phase; closed = p.closed; tidy = quiet h p.tidy }
