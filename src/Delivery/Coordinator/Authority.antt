-- ===== src/Delivery/Coordinator/Authority.antt =====
-- src/runtime-read-delivery.ts: under which grant a delivery stands.
use z_s_app.Prelude.{
  eq_iff, ap, string_eq, nat_eq, option_eq, ◌==◌, ℕ, ◌≡◌, refl, subst, String, Bool, true, false,
  not, ◌&&◌, Option, none, some, List, [], any, Result, ok, err, if◌then◌else◌, arith,
}
use z_s_app.Prelude.Run.{Ends, Ensures, Ensures-bind, Ensures-weaken, Ensures-call}
use z_s_app.Delivery.Errors.{Thrown}
use z_s_app.Delivery.Copies.{DeliverySnapshot}
use z_s_app.Delivery.Attempt.{DeliverInput, DeliveryResult, Call, Collaborators}
use z_s_app.Delivery.Coordinator.{
  not_found, is_method, grant_expired, is_some_range, check_grant, snapshot_for, deliver,
}
use z_s_app.Delivery.Coordinator.Reads.{Any, given-Ensures}
use z_s_app.Delivery.Coordinator.Soundness.{IsDelivered, deliver_snapshot-Gives}

-- What the grant allows at that time.
pub record IsAuthorized (input : DeliverInput) (now : ℕ) : Type 0 where
  pub unexpired : grant_expired input.grant.expires_at now ≡ false
  pub allowed : any (is_method input.method) input.grant.allowed_methods ≡ true
  pub ranges : (is_some_range input.range_header && not input.grant.allow_range) ≡ false

abbrev tests_or : Bool → Bool → Bool → Thrown → Thrown → Thrown → Result Thrown (Unit {0})
tests_or p q r d e f = if p then err d else if not q then err e else if r then err f else ok tt

authorized-of_tests :
    (p q r : Bool) (d e f : Thrown)
    → tests_or p q r d e f ≡ ok tt
    → (p ≡ false) × ((q ≡ true) × (r ≡ false))
authorized-of_tests p q r d e f h = ground arith

check_grant-IsAuthorized :
    (input : DeliverInput) (now : ℕ) → check_grant input now ≡ ok tt → IsAuthorized input now
unfolding check_grant
check_grant-IsAuthorized input now h =
    let tests = authorized-of_tests _ _ _ _ _ _ h in
    record { unexpired = tests.0; allowed = tests.1.0; ranges = tests.1.1 }

-- The object of a snapshot that the registry has given for the caller, delivered under the grant.
pub record IsGranted (c : Collaborators) (input : DeliverInput) (now : ℕ) (before : List Call)
    (r : DeliveryResult) (log : List Call) : Type 0 where
  pub authorized : IsAuthorized input now
  pub snapshot : DeliverySnapshot
  pub replied : c.snapshot before input ≡ ok (some snapshot)
  pub owned : snapshot.caller_app_id ≡ input.caller_app_id
  pub delivered : IsDelivered c input snapshot r log

module _ (after : String → String → Bool) (c : Collaborators) (input : DeliverInput) (now : ℕ)
    (before : List Call) where
  Found : Option DeliverySnapshot → List Call → Type 0
  Found v log = c.snapshot before input ≡ ok v

  snapshot_or : Bool → DeliverySnapshot → Result Thrown DeliverySnapshot
  snapshot_or b t = if not b then err not_found else ok t

  same-of_found :
      (b : Bool) (t s : DeliverySnapshot) → snapshot_or b t ≡ ok s → (b ≡ true) × (t ≡ s)
  unfolding snapshot_or
  same-of_found true t s h = (refl, cc)
  same-of_found false t s h = grind arith

  owned-of_found :
      (found : Option DeliverySnapshot) (s : DeliverySnapshot)
      → snapshot_for input found ≡ ok s
      → (found ≡ some s) × (s.caller_app_id ≡ input.caller_app_id)
  unfolding snapshot_or
  owned-of_found none s h = grind arith
  owned-of_found (some t) s h =
      let both = same-of_found (t.caller_app_id == input.caller_app_id) t s h in
      (
        ap some both.1,
        subst (λ u. u.caller_app_id ≡ input.caller_app_id) both.1 ((eq_iff _ _).0 both.0),
      )

  granted :
      (s : DeliverySnapshot) (found : Option DeliverySnapshot)
      → check_grant input now ≡ ok tt
      → Found found []
      → snapshot_for input found ≡ ok s
      → (r : DeliveryResult) (log : List Call) → IsDelivered c input s r log
      → IsGranted c input now before r log
  unfolding Found
  granted s found h got k r log d =
      let both = owned-of_found found s k in
      record {
        authorized = check_grant-IsAuthorized input now h;
        snapshot = s;
        replied = subst (λ v. c.snapshot before input ≡ ok v) both.0 got;
        owned = both.1;
        delivered = d;
      }

  deliver-Ensures :
      Ensures (λ log. log ≡ before) (deliver after c input now) (IsGranted c input now before) Any
  unfolding deliver Found
  deliver-Ensures = given-Ensures (check_grant input now) _ (λ u h.
      Ensures-bind {Q = Found}
        (Ensures-call (Call.snapshot input) (λ log. c.snapshot log input)
          (λ log v p same. subst (λ l. c.snapshot l input ≡ ok v) p same) (λ log e p same. tt))
        (λ found. given-Ensures (snapshot_for input found) _ (λ s k. record {
          apply = λ log got.
              (Ensures-weaken (deliver_snapshot-Gives after c input s) (λ log p. p)
                  (granted s found h got k) (λ log p. p)).apply
                log tt;
        })))

  Ends-ok :
      (o : Result Thrown DeliveryResult × List Call) (r : DeliveryResult)
      → Ends (IsGranted c input now before) Any o
      → o.0 ≡ ok r
      → IsGranted c input now before r o.1
  Ends-ok (ok d, log) r h same = subst (λ x. IsGranted c input now before x log) (cc) h
  Ends-ok (err e, log) r h same = grind arith

  -- What is delivered is the object that the registry holds for the caller, under a grant that has not
  -- expired and allows the method and the range, from one of its copies, which is verified and has the
  -- verified checksum and length. The last calls began an attempt on that copy, and the provider
  -- reported the verified length to a `HEAD`, which was recorded, or the expected length to a `GET`.
  pub deliver-IsGranted :
      (r : DeliveryResult)
      → (deliver after c input now before).0 ≡ ok r
      → IsGranted c input now before r (deliver after c input now before).1
  deliver-IsGranted r same = Ends-ok _ r (deliver-Ensures.apply before refl) same
