-- ===== src/Delivery/Coordinator/Reads.antt =====
-- src/runtime-read-delivery.ts: what an attempt that returns has read.
use z_s_app.Prelude.{
  string_eq, nat_eq, option_eq, ℕ, ◌≡◌, refl, sym, subst, String, Bool, true, false, not, none,
  some, List, ◌∷◌, Result, ok, nat_beq, nat_beq_iff,
}
use z_s_app.Prelude.Run.{
  Ensures, Ensures-bind, Ensures-catch, Ensures-weaken, Ensures-call, Ensures-throw, Ensures-given,
  ◌>>=◌, given, call,
}
use z_s_app.Delivery.Errors.{Thrown}
use z_s_app.Delivery.Attempt.{
  Action, Attempt, Method, head_only, get_body, DeliveryResult, Outcome, Call, Collaborators,
  throw_if, finalize_attempt, headed, gotten, read_copy, attempt_failed, attempt, delivery_result,
  begin_input, provider_range_of, length_mismatch,
}

-- The last call was `k`, and `reply` gave `v` for it; `X` holds of the log before it.
pub data Was {A : Type 0} (k : Call) (reply : List Call → Result Thrown A) (v : A)
    (X : List Call → Type 0) : List Call → Type 0 where
  was : {log : List Call} → X log → reply log ≡ ok v → Was k reply v X (k ∷ log)

abbrev pub Any : List Call → Type 0
Any _ = Unit {0}

pub given-Ensures :
    {A : Type 0} {B : Type 0} {P : List Call → Type 0} {Q : B → List Call → Type 0}
    (r : Result Thrown A) (next : A → Action B)
    → ((v : A) → r ≡ ok v → Ensures P (next v) Q Any)
    → Ensures P (given r >>= next) Q Any
given-Ensures r next later =
    Ensures-bind (Ensures-weaken (Ensures-given r) (λ log p. p) (λ v log h. h) (λ log h. tt))
      (λ v. record { apply = λ log h. (later v h.1).apply log h.0 })

module _ (c : Collaborators) where
  abbrev pub WasBegun : Attempt → String → List Call → Type 0
  WasBegun a id =
      Was (Call.begin_attempt (begin_input a)) (λ log. c.begin_attempt log (begin_input a)) id Any

  abbrev pub WasHeaded : Attempt → String → ℕ → List Call → Type 0
  WasHeaded a id n =
      Was (Call.head a.copy.target) (λ log. c.head log a.copy.target) n (WasBegun a id)

  abbrev pub WasFinished : Attempt → String → ℕ → List Call → Type 0
  WasFinished a id n =
      Was (Call.finish_attempt id (Outcome.succeeded n))
        (λ log. c.finish_attempt log id (Outcome.succeeded n)) tt (WasHeaded a id n)

  -- The last calls read the copy: a `HEAD` has found the verified length and was recorded, or a `GET`
  -- has found the expected length.
  pub data IsRead (a : Attempt) (r : DeliveryResult) (log : List Call) : Type 0 where
    by_head :
        (id : String)
        → r ≡ delivery_result a none
        → Was (Call.append_event a) (λ log. c.append_event log a) tt (WasFinished a id a.total) log
        → IsRead a r log
    by_get :
        (id : String)
        → r
          ≡ delivery_result a
              (some (record { provider_attempt_id = id; byte_length = a.expected_length }))
        → Was
            (Call.get a.copy.target (provider_range_of a.range))
            (λ log. c.get log a.copy.target (provider_range_of a.range))
            a.expected_length
            (WasBegun a id)
            log
        → IsRead a r log

  Ensures-Was :
      {A : Type 0} (X : List Call → Type 0) (k : Call) (reply : List Call → Result Thrown A)
      → Ensures X (call k reply) (λ v. Was k reply v X) Any
  Ensures-Was X k reply = Ensures-call k reply (λ log v p same. was p same) (λ log e p same. tt)

  finalize-Ensures :
      (X : List Call → Type 0) (id : String) (outcome : Outcome)
      → Ensures X
          (finalize_attempt c id outcome)
          (λ u. Was (Call.finish_attempt id outcome) (λ log. c.finish_attempt log id outcome) u X)
          Any
  unfolding finalize_attempt
  finalize-Ensures X id outcome =
      Ensures-catch (Ensures-Was X (Call.finish_attempt id outcome) _) (λ e. Ensures-throw _)

  abbrev Reads : Attempt → Action DeliveryResult → Type 0
  Reads a m = Ensures Any m (IsRead a) Any

  throw_unless-Ensures :
      (X : List Call → Type 0) (b : Bool) (e : Thrown)
      → Ensures X (throw_if (not b) e) (λ u log. X log × (b ≡ true)) Any
  throw_unless-Ensures X true e = record { apply = λ log p. (p, refl) }
  throw_unless-Ensures X false e = record { apply = λ log p. tt }

  headed-IsRead :
      (a : Attempt) (id : String) (n : ℕ) (log : List Call)
      → Was
          (Call.append_event a)
          (λ log. c.append_event log a)
          tt
          (Was
            (Call.finish_attempt id (Outcome.succeeded n))
            (λ log. c.finish_attempt log id (Outcome.succeeded n))
            tt
            (λ log. WasHeaded a id n log × (nat_beq n a.total ≡ true)))
          log
      → IsRead a (delivery_result a none) log
  headed-IsRead a id n _ (was {log} (was (read, same) recorded) appended) = by_head id refl (
      subst
        (λ m.
          Was (Call.append_event a) (λ log. c.append_event log a) tt (WasFinished a id m)
            (Call.append_event a ∷ log))
        ((nat_beq_iff n a.total).0 same) (was (was read recorded) appended))

  headed-Ensures :
      (a : Attempt) (id : String) (n : ℕ)
      → Ensures (WasHeaded a id n) (headed c a id n) (IsRead a) Any
  headed-Ensures a id n =
      Ensures-bind (throw_unless-Ensures (WasHeaded a id n) (nat_beq n a.total) length_mismatch)
        (λ u.
          Ensures-bind
            (finalize-Ensures (λ log. WasHeaded a id n log × (nat_beq n a.total ≡ true)) id _)
            (λ u'.
              Ensures-bind (Ensures-Was _ (Call.append_event a) (λ log. c.append_event log a))
                (λ u''. record { apply = λ log h. headed-IsRead a id n log h })))

  gotten-Ensures :
      (a : Attempt) (id : String) (n : ℕ) (b : Bool)
      → nat_beq n a.expected_length ≡ b
      → Ensures
          (Was
            (Call.get a.copy.target (provider_range_of a.range))
            (λ log. c.get log a.copy.target (provider_range_of a.range))
            n
            (WasBegun a id))
          (gotten c a id n b)
          (IsRead a)
          Any
  gotten-Ensures a id n true same = record {
    apply = λ log h.
        subst
          (λ m.
            (Was (Call.get a.copy.target (provider_range_of a.range))
              (λ log. c.get log a.copy.target (provider_range_of a.range)) m (WasBegun a id) log)
            → IsRead a
                (delivery_result a (some (record { provider_attempt_id = id; byte_length = m })))
                log)
          (sym ((nat_beq_iff n a.expected_length).0 same)) (by_get id refl) h;
  }
  gotten-Ensures a id n false same = record { apply = λ log h. tt }

  read_copy-Ensures :
      (a : Attempt) (id : String) (method : Method)
      → Ensures (WasBegun a id) (read_copy c a id method) (IsRead a) Any
  read_copy-Ensures a id head_only =
      Ensures-bind (Ensures-Was (WasBegun a id) (Call.head a.copy.target) _) (headed-Ensures a id)
  read_copy-Ensures a id get_body =
      Ensures-bind
        (Ensures-Was (WasBegun a id) (Call.get a.copy.target (provider_range_of a.range)) _)
        (λ n. gotten-Ensures a id n (nat_beq n a.expected_length) refl)

  attempt_failed-Ensures :
      (a : Attempt) (id : String) (e : Thrown) → Ensures Any (attempt_failed c id e) (IsRead a) Any
  attempt_failed-Ensures a id e =
      Ensures-bind (finalize-Ensures Any id _) (λ u. record { apply = λ log h. tt })

  pub attempt-Ensures : (a : Attempt) → Ensures Any (attempt c a) (IsRead a) Any
  unfolding attempt
  attempt-Ensures a =
      Ensures-bind (Ensures-Was Any (Call.begin_attempt (begin_input a)) _)
        (λ id. Ensures-catch (read_copy-Ensures a id a.input.method) (attempt_failed-Ensures a id))
