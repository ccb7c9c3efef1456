-- ===== src/Delivery/Coordinator/Protocol.antt =====
-- src/runtime-read-delivery.ts: the attempts that a delivery begins and finishes.
pub mod Attempts
use z_s_app.Prelude.{
  ℕ, ◌≡◌, refl, String, Bool, true, false, Option, none, some, List, [], ◌∷◌, Result, ok, err,
  if◌then◌else◌,
}
use z_s_app.Prelude.Run.{◌>>=◌, given, throw}
use z_s_app.Prelude.Run.Raising.{
  EndsAs, Raises, Raises-bind, Raises-catch, Raises-call, Raises-given,
}
use z_s_app.Delivery.Errors.{Thrown, delivery, provider, unknown, is_fallback_eligible}
use z_s_app.Delivery.Range.{ParsedRange}
use z_s_app.Delivery.Copies.{
  ConfiguredCopy, LegacyCopies, DeliverySnapshot, Disposition, usable, fallback, conflict,
  usable_copy, ordered_copies,
}
use z_s_app.Delivery.Attempt.{Action, Attempt, DeliverInput, DeliveryResult, Call, Collaborators}
use z_s_app.Delivery.Coordinator.{
  unavailable_or, try_copy, try_copies, try_canonical, read_legacy, read_copies, deliver_snapshot,
  check_grant, snapshot_for, check_state, verified_content, range_of, deliver,
}
use z_s_app.Delivery.Coordinator.Protocol.Attempts.{
  IsTidy, unrecorded, IsAtRest, IsLeftBy, at_rest, unfinished, EndsBody, recording_failed, Delivers,
  attempt-Delivers, quiet-IsAtRest,
}

module _ (c : Collaborators) where
  -- what is thrown where no attempt is open
  rests-throw : (e : Thrown) → Delivers c (throw e)
  rests-throw e = record { apply = λ log p. at_rest p }

  -- The next copy is tried only after an error that leaves no attempt open.
  or_later-Raises :
      (later : Action DeliveryResult) (e : Thrown)
      → Delivers c later
      → Raises
          (IsLeftBy c e)
          (if is_fallback_eligible e then later else throw e)
          (λ r. EndsBody c r.body)
          (IsLeftBy c)
  or_later-Raises later e h = record { apply = λ log p. by_cause e log p }
    where
      at_rest_then :
          (e : Thrown) (b : Bool) (log : List Call)
          → IsAtRest c log
          → EndsAs (λ r. EndsBody c r.body) (IsLeftBy c) ((if b then later else throw e) log)
      at_rest_then e true log p = h.apply log p
      at_rest_then e false log p = at_rest p

      by_cause :
          (e : Thrown) (log : List Call)
          → IsLeftBy c e log
          → EndsAs
              (λ r. EndsBody c r.body)
              (IsLeftBy c)
              ((if is_fallback_eligible e then later else throw e) log)
      by_cause e log (at_rest p) = at_rest_then e (is_fallback_eligible e) log p
      by_cause e log (unfinished id p) = unfinished id p

  unavailable_or-Raises :
      (e : Thrown) → Raises (IsLeftBy c e) (unavailable_or e) (λ r. EndsBody c r.body) (IsLeftBy c)
  unavailable_or-Raises e = record { apply = λ log p. by_cause e log p }
    where
      by_cause :
          (e : Thrown) (log : List Call)
          → IsLeftBy c e log
          → EndsAs (λ r. EndsBody c r.body) (IsLeftBy c) (unavailable_or e log)
      by_cause (provider e) log (at_rest p) = at_rest p
      by_cause (delivery e) log (at_rest p) = at_rest p
      by_cause unknown log (at_rest p) = at_rest p
      by_cause e log (unfinished id p) = unfinished id p

module _ (after : String → String → Bool) (c : Collaborators) where
  try_copy-Delivers :
      (a : Attempt) (later : Action DeliveryResult) (d : Disposition)
      → Delivers c later
      → Delivers c (try_copy after c a later d)
  try_copy-Delivers a later conflict h = rests-throw c _
  try_copy-Delivers a later fallback h = h
  try_copy-Delivers a later usable h =
      Raises-catch (attempt-Delivers c a) (λ e. or_later-Raises c later e h)

  try_copies-Delivers :
      (make : ConfiguredCopy → Attempt) (checksum : String) (total : ℕ) (l : List ConfiguredCopy)
      → Delivers c (try_copies after c make checksum total l)
  unfolding try_copies
  try_copies-Delivers make checksum total [] = rests-throw c _
  try_copies-Delivers make checksum total (x ∷ rest) =
      try_copy-Delivers (make x) _ (usable_copy x.copy checksum total)
        (try_copies-Delivers make checksum total rest)

  try_canonical-Delivers : (a : Attempt) (d : Disposition) → Delivers c (try_canonical after c a d)
  try_canonical-Delivers a conflict = rests-throw c _
  try_canonical-Delivers a fallback = rests-throw c _
  try_canonical-Delivers a usable = Raises-catch (attempt-Delivers c a) (unavailable_or-Raises c)

  read_legacy-Delivers :
      (input : DeliverInput) (s : DeliverySnapshot) (checksum : String) (total : ℕ)
      (range : Option ParsedRange) (copies : Option LegacyCopies)
      → Delivers c (read_legacy after c input s checksum total range copies)
  read_legacy-Delivers input s checksum total range none = rests-throw c _
  read_legacy-Delivers input s checksum total range (some copies) =
      try_copy-Delivers _ _ (usable_copy copies.hot checksum total)
        (try_canonical-Delivers _ (usable_copy copies.canonical checksum total))

  read_copies-Delivers :
      (input : DeliverInput) (s : DeliverySnapshot) (checksum : String) (total : ℕ)
      (range : Option ParsedRange) (copies : Option (List ConfiguredCopy))
      → Delivers c (read_copies after c input s checksum total range copies)
  read_copies-Delivers input s checksum total range none =
      read_legacy-Delivers input s checksum total range s.copies
  read_copies-Delivers input s checksum total range (some copies) =
      try_copies-Delivers _ checksum total (ordered_copies after copies)

  Delivers-given :
      {A : Type 0} (r : Result Thrown A) (next : A → Action DeliveryResult)
      → ((v : A) → Delivers c (next v))
      → Delivers c (given r >>= next)
  Delivers-given r next later = Raises-bind (Raises-given r (λ e log p. at_rest p)) later

  deliver_snapshot-Delivers :
      (input : DeliverInput) (s : DeliverySnapshot) → Delivers c (deliver_snapshot after c input s)
  unfolding deliver_snapshot
  deliver_snapshot-Delivers input s = Delivers-given (check_state s.registry_state) _ (λ u.
      Delivers-given (verified_content s s.verified_checksum_sha256 s.verified_byte_length) _
        (λ content.
          Delivers-given (range_of input.range_header content.1) _
            (λ range. read_copies-Delivers input s content.0 content.1 range s.configured_copies)))

  deliver-Delivers : (input : DeliverInput) (now : ℕ) → Delivers c (deliver after c input now)
  unfolding deliver
  deliver-Delivers input now = Delivers-given (check_grant input now) _ (λ u.
      Raises-bind
        (Raises-call {Q = λ _. IsAtRest c} (Call.snapshot input) (λ log. c.snapshot log input)
          (λ log v p same. quiet-IsAtRest c (Call.snapshot input) log refl p)
          (λ log e p same. at_rest (quiet-IsAtRest c (Call.snapshot input) log refl p)))
        (λ found. Delivers-given (snapshot_for input found) _ (deliver_snapshot-Delivers input)))

  -- What holds of a result and of the log: the attempt that the body finishes is open, or none is; and
  -- after an error none is, but for one whose finish was refused, which the error then says.
  pub data IsFinished : Result Thrown DeliveryResult × List Call → Type 0 where
    returned :
        {r : DeliveryResult} {log : List Call} → EndsBody c r.body log → IsFinished (ok r, log)
    thrown : {e : Thrown} {log : List Call} → IsAtRest c log → IsFinished (err e, log)
    thrown_unrecorded :
        {log : List Call} (id : String)
        → IsTidy c (unrecorded id) log
        → IsFinished (err recording_failed, log)

  IsLeftBy-IsFinished : (e : Thrown) (log : List Call) → IsLeftBy c e log → IsFinished (err e, log)
  IsLeftBy-IsFinished e log (at_rest p) = thrown p
  IsLeftBy-IsFinished e log (unfinished id p) = thrown_unrecorded id p

  Ends-IsFinished :
      (r : Result Thrown DeliveryResult × List Call)
      → EndsAs (λ d log. EndsBody c d.body log) (IsLeftBy c) r
      → IsFinished r
  Ends-IsFinished (ok d, log) h = returned h
  Ends-IsFinished (err e, log) h = IsLeftBy-IsFinished e log h

  -- If no attempt is open before a delivery, it begins an attempt to read a copy only when each attempt
  -- before has been finished by a call that the registry accepted. When it returns without a body, no
  -- attempt is open; when it returns a body, only the attempt of that body is. When it throws, no
  -- attempt is open, or the registry refused to record the finish of the last one: then the error is
  -- `read-attempt-recording-failed`, and no other attempt was begun after it.
  pub deliver-IsFinished :
      (input : DeliverInput) (now : ℕ) (log : List Call)
      → IsAtRest c log
      → IsFinished (deliver after c input now log)
  deliver-IsFinished input now log h = Ends-IsFinished _ ((deliver-Delivers input now).apply log h)
