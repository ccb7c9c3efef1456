-- ===== src/Delivery/Stream/Once.antt =====
-- src/runtime-read-delivery.ts: a stream finishes its attempt once.
use z_s_app.Prelude.{
  ℕ, suc, ◌≤◌, ◌≡◌, refl, Bool, true, false, ◌&&◌, Option, none, some, List, [], ◌∷◌, arith,
  if-of_true, if-of_false, if◌then◌else◌, ◌∙◌, sym, subst,
}
use z_s_app.Delivery.Errors.{SafeDiagnostic}
use z_s_app.Delivery.Stream.{
  StreamCall, StreamState, StreamStep, Promise, Wait, Next, Reply, pulled, aborts, cancelled,
  replied, chunk, done, threw, for_chunk, for_return, for_promise, closing_controller, erring,
  nothing, streaming, calls_on, finalizing, awaits_promise, pick, unheard, recording_success,
  complete_stream, recording_failure, closing_source, fail_stream, stream_failed, caught_unless,
  after_promise, resume, resume_picked, heard, step, run_stream,
}

-- the calls that finish the attempt
abbrev pub finishes : List StreamCall → ℕ
finishes [] = 0
finishes (StreamCall.on_success ∷ rest) = suc (finishes rest)
finishes (StreamCall.on_failure d ∷ rest) = suc (finishes rest)
finishes (_ ∷ rest) = finishes rest

abbrev pub closes : List StreamCall → ℕ
closes [] = 0
closes (StreamCall.close_source ∷ rest) = suc (closes rest)
closes (_ ∷ rest) = closes rest

abbrev pub times : Bool → ℕ
times true = 1
times false = 0

module _ (returns : StreamCall → List StreamCall → Bool) where
  -- No call that destroys or closes the source threw.
  abbrev pub source_returned : List StreamCall → Bool
  source_returned [] = true
  source_returned (StreamCall.destroy_source ∷ rest) =
      returns StreamCall.destroy_source rest && source_returned rest
  source_returned (StreamCall.close_source ∷ rest) =
      returns StreamCall.close_source rest && source_returned rest
  source_returned (_ ∷ rest) = source_returned rest

  -- The attempt is finished, and the source closed, once at most, and never before the stream is
  -- finalized; and once if it is finalized, where destroying and closing the source did not throw.
  pub record IsOnce (s : StreamState) : Type 0 where
    pub finished_once : finishes s.calls ≤ times s.finalized
    pub closed_once : closes s.calls ≤ times s.finalized
    pub finished : source_returned s.calls ≡ true → finishes s.calls ≡ times s.finalized
    pub closed : source_returned s.calls ≡ true → closes s.calls ≡ times s.finalized

  -- Calls, waits and listeners that are no matter here.
  same-IsOnce :
      (s t : StreamState)
      → finishes t.calls ≡ finishes s.calls
      → closes t.calls ≡ closes s.calls
      → source_returned t.calls ≡ source_returned s.calls
      → t.finalized ≡ s.finalized
      → IsOnce s
      → IsOnce t
  same-IsOnce s t f c r z h = record {
    finished_once = rw (f, z) h.finished_once;
    closed_once = rw (c, z) h.closed_once;
    finished = λ q. rw (f, z) (h.finished (sym r ∙ q));
    closed = λ q. rw (c, z) (h.closed (sym r ∙ q));
  }

  recording_success-IsOnce :
      (s : StreamState) (b : Bool)
      → s.finalized ≡ false
      → returns StreamCall.close_source s.calls ≡ b
      → IsOnce s
      → IsOnce (recording_success returns b (calls_on StreamCall.close_source (finalizing s))).1
  recording_success-IsOnce s true e r h = record {
    finished_once = grind (arith, h.finished_once, e);
    closed_once = grind (arith, h.closed_once, e);
    finished = λ q. grind (arith, h.finished_once, e);
    closed = λ q. grind (arith, h.closed_once, e);
  }
  recording_success-IsOnce s false e r h = record {
    finished_once = grind (arith, h.finished_once, e);
    closed_once = grind (arith, h.closed_once, e);
    finished = λ q. absurd (ground (arith, q, r));
    closed = λ q. absurd (ground (arith, q, r));
  }

  complete_stream-IsOnce :
      (s : StreamState) (b : Bool)
      → s.finalized ≡ b
      → IsOnce s
      → IsOnce (complete_stream returns s).1
  unfolding complete_stream
  complete_stream-IsOnce s true e h =
      subst (λ (r : Promise × StreamState). IsOnce r.1) (sym (if-of_true _ _ e)) h
  complete_stream-IsOnce s false e h =
      subst (λ (r : Promise × StreamState). IsOnce r.1) (sym (if-of_false _ _ e))
        (recording_success-IsOnce s _ e refl h)

  recording_failure-IsOnce :
      (d : SafeDiagnostic) (s : StreamState) (b : Bool)
      → s.finalized ≡ false
      → returns StreamCall.close_source (StreamCall.destroy_source ∷ s.calls) ≡ b
      → IsOnce s
      → IsOnce
          (recording_failure returns d b (
            calls_on StreamCall.close_source (calls_on StreamCall.destroy_source (finalizing s)))).1
  recording_failure-IsOnce d s true e r h = record {
    finished_once = grind (arith, h.finished_once, e);
    closed_once = grind (arith, h.closed_once, e);
    finished = λ q. grind (arith, h.finished_once, e);
    closed = λ q. grind (arith, h.closed_once, e);
  }
  recording_failure-IsOnce d s false e r h = record {
    finished_once = grind (arith, h.finished_once, e);
    closed_once = grind (arith, h.closed_once, e);
    finished = λ q. absurd (ground (arith, q, r));
    closed = λ q. absurd (ground (arith, q, r));
  }

  closing_source-IsOnce :
      (d : SafeDiagnostic) (s : StreamState) (b : Bool)
      → s.finalized ≡ false
      → returns StreamCall.destroy_source s.calls ≡ b
      → IsOnce s
      → IsOnce (closing_source returns d b (calls_on StreamCall.destroy_source (finalizing s))).1
  closing_source-IsOnce d s true e r h = recording_failure-IsOnce d s _ e refl h
  closing_source-IsOnce d s false e r h = record {
    finished_once = grind (arith, h.finished_once, e);
    closed_once = grind (arith, h.closed_once, e);
    finished = λ q. absurd (ground (arith, q, r));
    closed = λ q. absurd (ground (arith, q, r));
  }

  fail_stream-IsOnce :
      (d : SafeDiagnostic) (s : StreamState) (b : Bool)
      → s.finalized ≡ b
      → IsOnce s
      → IsOnce (fail_stream returns d s).1
  unfolding fail_stream
  fail_stream-IsOnce d s true e h =
      subst (λ (r : Promise × StreamState). IsOnce r.1) (sym (if-of_true _ _ e)) h
  fail_stream-IsOnce d s false e h =
      subst (λ (r : Promise × StreamState). IsOnce r.1) (sym (if-of_false _ _ e))
        (closing_source-IsOnce d s _ e refl h)

  -- `fail` and the wait for it
  awaits_fail-IsOnce :
      (d : SafeDiagnostic) (next : Next) (s : StreamState)
      → IsOnce s
      → IsOnce (awaits_promise next (fail_stream returns d s))
  awaits_fail-IsOnce d next s h =
      same-IsOnce (fail_stream returns d s).1 _ refl refl refl refl
        (fail_stream-IsOnce d s s.finalized refl h)

  unheard-IsOnce : (s : StreamState) → IsOnce s → IsOnce (unheard s)
  unheard-IsOnce s h = same-IsOnce s _ refl refl refl refl h

  stream_failed-IsOnce : (s : StreamState) → IsOnce s → IsOnce (stream_failed returns s)
  stream_failed-IsOnce s h = awaits_fail-IsOnce _ _ (unheard s) (unheard-IsOnce s h)

  caught_unless-IsOnce :
      (b : Bool) (s : StreamState) → IsOnce s → IsOnce (caught_unless returns b s)
  caught_unless-IsOnce true s h = h
  caught_unless-IsOnce false s h = stream_failed-IsOnce s h

  after_promise-IsOnce :
      (next : Next) (b : Bool) (s : StreamState)
      → IsOnce s
      → IsOnce (after_promise returns next b s)
  after_promise-IsOnce closing_controller true s h =
      caught_unless-IsOnce _ _ (same-IsOnce s _ refl refl refl refl h)
  after_promise-IsOnce closing_controller false s h = stream_failed-IsOnce s h
  after_promise-IsOnce (erring code) true s h = same-IsOnce s _ refl refl refl refl h
  after_promise-IsOnce (erring code) false s h = h
  after_promise-IsOnce nothing b s h = h

  resume-IsOnce :
      (w : Wait) (reply : Reply) (s : StreamState) → IsOnce s → IsOnce (resume returns w reply s)
  resume-IsOnce for_chunk (chunk bytes) s h =
      caught_unless-IsOnce _ _ (same-IsOnce s _ refl refl refl refl h)
  resume-IsOnce for_chunk done s h =
      same-IsOnce (complete_stream returns (unheard s)).1 _ refl refl refl refl
        (complete_stream-IsOnce (unheard s) s.finalized refl (unheard-IsOnce s h))
  resume-IsOnce for_chunk threw s h = stream_failed-IsOnce s h
  resume-IsOnce for_return (chunk bytes) s h = awaits_fail-IsOnce _ _ s h
  resume-IsOnce for_return done s h = awaits_fail-IsOnce _ _ s h
  resume-IsOnce for_return threw s h = h
  resume-IsOnce (for_promise p next) reply s h = after_promise-IsOnce next _ s h

  picked-IsOnce :
      (reply : Reply) (s : StreamState) (o : Option (Wait × List Wait))
      → IsOnce s
      → IsOnce (resume_picked returns reply s o)
  picked-IsOnce reply s none h = h
  picked-IsOnce reply s (some (w, others)) h =
      resume-IsOnce w reply (record s { waits = others }) (same-IsOnce s _ refl refl refl refl h)

  heard-IsOnce : (b : Bool) (s : StreamState) → IsOnce s → IsOnce (heard returns b s)
  heard-IsOnce true s h = awaits_fail-IsOnce _ _ (unheard s) (unheard-IsOnce s h)
  heard-IsOnce false s h = h

  if-IsOnce : (b : Bool) (s t : StreamState) → IsOnce s → IsOnce t → IsOnce (if b then s else t)
  if-IsOnce true s t h k = h
  if-IsOnce false s t h k = k

  step-IsOnce : (k : StreamStep) (s : StreamState) → IsOnce s → IsOnce (step returns k s)
  step-IsOnce pulled s h =
      if-IsOnce s.aborted _ _ (awaits_fail-IsOnce _ _ s h) (same-IsOnce s _ refl refl refl refl h)
  step-IsOnce aborts s h = if-IsOnce s.aborted _ _ h (
      heard-IsOnce s.listening (record s { aborted = true })
        (same-IsOnce s _ refl refl refl refl h))
  step-IsOnce cancelled s h = same-IsOnce s _ refl refl refl refl h
  step-IsOnce (replied n reply) s h = picked-IsOnce reply s (pick n s.waits) h

  run_stream-kept :
      (l : List StreamStep) (s : StreamState) → IsOnce s → IsOnce (run_stream returns l s)
  unfolding run_stream
  run_stream-kept [] s h = h
  run_stream-kept (k ∷ rest) s h = run_stream-kept rest (step returns k s) (step-IsOnce k s h)

  -- In whatever order the stream is pulled and cancelled, the signal is aborted, and each wait of these
  -- ends, with whatever reply, the attempt is finished once at most, and the source closed once at
  -- most, and neither before the stream is finalized. Once it is finalized, each was done once, unless
  -- destroying or closing the source threw.
  pub run_stream-IsOnce :
      (l : List StreamStep) (aborted : Bool) → IsOnce (run_stream returns l (streaming aborted))
  run_stream-IsOnce l aborted = run_stream-kept l (streaming aborted) (record {
    finished_once = omega arith;
    closed_once = omega arith;
    finished = λ q. refl;
    closed = λ q. refl;
  })
