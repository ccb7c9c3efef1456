-- ===== src/Delivery/Stream.antt =====
-- src/runtime-read-delivery.ts: `toSafeWebStream`, the stream of a body that finishes its attempt. What
-- happens between two waits is one step: each `await` of the source ends a step, and what follows it
-- is a later one.
pub mod Once
use z_s_app.Prelude.{
  ℕ, zero, suc, String, Bool, true, false, Option, none, some, List, [], ◌∷◌, if◌then◌else◌,
}
use z_s_app.Delivery.Errors.{Category, SafeDiagnostic}

pub data StreamCall : Type 0 where
  next_chunk destroy_source close_source iterator_return : StreamCall
  on_success : StreamCall
  on_failure : SafeDiagnostic → StreamCall
  enqueue : List ℕ → StreamCall
  close_controller : StreamCall
  error_controller : String → StreamCall

-- the promise that is awaited: it is open, or was kept or broken before the wait
pub data Promise : Type 0 where
  open_still kept broken : Promise

-- what follows the wait for `complete` in `pull`, or for `fail` in `pull`, in `abort` and in `cancel`
pub data Next : Type 0 where
  closing_controller : Next
  erring : String → Next
  nothing : Next

pub data Wait : Type 0 where
  for_chunk for_return : Wait
  for_promise : Promise → Next → Wait

-- `aborted` is that of the signal; `listening` says that `abort` is still registered with it. The calls
-- made stand in `calls` and the waits in `waits`, the latest first.
pub record StreamState : Type 0 where
  pub finalized : Bool
  pub aborted : Bool
  pub listening : Bool
  pub waits : List Wait
  pub calls : List StreamCall

-- what ends a wait; a promise is kept by `done` or `chunk`
pub data Reply : Type 0 where
  chunk : List ℕ → Reply
  done threw : Reply

-- `replied n` ends the wait number `n` of those that stand in `waits`.
pub data StreamStep : Type 0 where
  pulled aborts cancelled : StreamStep
  replied : ℕ → Reply → StreamStep

abbrev pub streaming : Bool → StreamState
streaming aborted = record {
  finalized = false;
  aborted = aborted;
  listening = true;
  waits = [];
  calls = [];
}

abbrev pub unavailable_diagnostic : String → SafeDiagnostic
unavailable_diagnostic code = record {
  category = Category.dependency_unavailable;
  code = code;
  retryable = true;
}

abbrev pub cancelled_diagnostic : SafeDiagnostic
cancelled_diagnostic = unavailable_diagnostic "object-read-cancelled"

abbrev pub calls_on : StreamCall → StreamState → StreamState
calls_on k s = record s { calls = k ∷ s.calls }

abbrev pub finalizing : StreamState → StreamState
finalizing s = record s { finalized = true }

abbrev pub unheard : StreamState → StreamState
unheard s = record s { listening = false }

abbrev pub awaits : Wait → StreamState → StreamState
awaits w s = record s { waits = w ∷ s.waits }

abbrev pub awaits_promise : Next → Promise × StreamState → StreamState
awaits_promise next r = awaits (for_promise r.0 next) r.1

abbrev pub is_kept : Promise → Reply → Bool
is_kept kept reply = true
is_kept broken reply = false
is_kept open_still threw = false
is_kept open_still _ = true

-- the wait of that number, and the others
unfoldable pub pick : ℕ → List Wait → Option (Wait × List Wait)
pick n [] = none
pick zero (w ∷ rest) = some (w, rest)
pick (suc n) (w ∷ rest) = beside w (pick n rest)
  where
    beside : Wait → Option (Wait × List Wait) → Option (Wait × List Wait)
    beside w none = none
    beside w (some (v, others)) = some (v, w ∷ others)

-- `returns` says of a call that is not awaited, after the calls before it, that it does not throw.
module _ (returns : StreamCall → List StreamCall → Bool) where
  -- `await input.onSuccess()`, if `close` returned
  abbrev pub recording_success : Bool → StreamState → Promise × StreamState
  recording_success true s = (open_still, calls_on StreamCall.on_success s)
  recording_success false s = (broken, s)

  -- `complete`, up to its wait
  unfoldable pub complete_stream : StreamState → Promise × StreamState
  complete_stream s =
      if s.finalized
      then (kept, s)
      else recording_success (returns StreamCall.close_source s.calls)
          (calls_on StreamCall.close_source (finalizing s))

  abbrev pub recording_failure : SafeDiagnostic → Bool → StreamState → Promise × StreamState
  recording_failure d true s = (open_still, calls_on (StreamCall.on_failure d) s)
  recording_failure d false s = (broken, s)

  abbrev pub closing_source : SafeDiagnostic → Bool → StreamState → Promise × StreamState
  closing_source d true s =
      recording_failure d (returns StreamCall.close_source s.calls)
        (calls_on StreamCall.close_source s)
  closing_source d false s = (broken, s)

  -- `fail`, up to its wait
  unfoldable pub fail_stream : SafeDiagnostic → StreamState → Promise × StreamState
  fail_stream d s =
      if s.finalized
      then (kept, s)
      else closing_source d (returns StreamCall.destroy_source s.calls)
          (calls_on StreamCall.destroy_source (finalizing s))

  -- the `catch` of `pull`, up to its wait
  abbrev pub stream_failed : StreamState → StreamState
  stream_failed s =
      awaits_promise (erring "object-read-stream-failed")
        (fail_stream (unavailable_diagnostic "object-read-stream-failed") (unheard s))

  abbrev pub caught_unless : Bool → StreamState → StreamState
  caught_unless true s = s
  caught_unless false s = stream_failed s

  -- What follows the wait for a promise, which was kept or not. A promise that `fail` breaks is that of
  -- `pull`, `abort` or `cancel`.
  abbrev pub after_promise : Next → Bool → StreamState → StreamState
  after_promise closing_controller true s =
      caught_unless (returns StreamCall.close_controller s.calls)
        (calls_on StreamCall.close_controller s)
  after_promise closing_controller false s = stream_failed s
  after_promise (erring code) true s = calls_on (StreamCall.error_controller code) s
  after_promise (erring code) false s = s
  after_promise nothing b s = s

  abbrev pub resume : Wait → Reply → StreamState → StreamState
  resume for_chunk (chunk bytes) s =
      caught_unless (returns (StreamCall.enqueue bytes) s.calls)
        (calls_on (StreamCall.enqueue bytes) s)
  resume for_chunk done s = awaits_promise closing_controller (complete_stream (unheard s))
  resume for_chunk threw s = stream_failed s
  resume for_return threw s = s
  resume for_return _ s = awaits_promise nothing (fail_stream cancelled_diagnostic s)
  resume (for_promise p next) reply s = after_promise next (is_kept p reply) s

  abbrev pub resume_picked : Reply → StreamState → Option (Wait × List Wait) → StreamState
  resume_picked reply s none = s
  resume_picked reply s (some (w, others)) = resume w reply (record s { waits = others })

  -- the listener of the signal
  abbrev pub heard : Bool → StreamState → StreamState
  heard true s = awaits_promise nothing (fail_stream cancelled_diagnostic (unheard s))
  heard false s = s

  abbrev pub step : StreamStep → StreamState → StreamState
  step pulled s =
      if s.aborted
      then awaits_promise (erring "object-read-cancelled") (fail_stream cancelled_diagnostic s)
      else awaits for_chunk (calls_on StreamCall.next_chunk s)
  step aborts s = if s.aborted then s else heard s.listening (record s { aborted = true })
  step cancelled s = awaits for_return (calls_on StreamCall.iterator_return (unheard s))
  step (replied n reply) s = resume_picked reply s (pick n s.waits)

  -- any steps, the first one first
  unfoldable pub run_stream : List StreamStep → StreamState → StreamState
  unfolding complete_stream fail_stream pick
  run_stream [] s = s
  run_stream (k ∷ rest) s = run_stream rest (step k s)
