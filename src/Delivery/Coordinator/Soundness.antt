-- ===== src/Delivery/Coordinator/Soundness.antt =====
-- src/runtime-read-delivery.ts: what a delivery stands on.
use z_s_app.Prelude.{
  string_eq, nat_eq, option_eq, ℕ, ◌≡◌, refl, sym, subst, String, Bool, true, false, Option, none,
  some, List, Result, ok, err, if◌then◌else◌, arith,
}
use z_s_app.Prelude.Run.{Ensures, Ensures-throw}
use z_s_app.Delivery.Errors.{Thrown}
use z_s_app.Delivery.Range.{ParsedRange}
use z_s_app.Delivery.Copies.{
  CopySnapshot, ConfiguredCopy, LegacyCopies, DeliverySnapshot, DeliveryState, usable, usable_copy,
  state_of_role, ordered_copies,
}
use z_s_app.Delivery.Attempt.{DeliverInput, DeliveryResult, Call, Collaborators}
use z_s_app.Delivery.Coordinator.{
  attempt_of, read_legacy, read_copies, deliver_snapshot, check_state, verified_content, range_of,
}
use z_s_app.Delivery.Coordinator.Reads.{given-Ensures, Any, IsRead}
use z_s_app.Delivery.Coordinator.Choice.{
  IsUsable, IsCopyOf, configured, hot, canonical, usable_copy-IsUsable, Gives, Holds-ordered_copies,
  try_copy-Gives, try_canonical-Gives, try_copies-Gives,
}

-- A result, and the calls before it, that deliver the object of the snapshot.
pub record IsDelivered (c : Collaborators) (input : DeliverInput) (s : DeliverySnapshot)
    (r : DeliveryResult) (log : List Call) : Type 0 where
  pub checksum : String
  pub total : ℕ
  pub range : Option ParsedRange
  pub copy : CopySnapshot
  pub state : DeliveryState
  pub verified_checksum : s.verified_checksum_sha256 ≡ some checksum
  pub verified_length : s.verified_byte_length ≡ some total
  pub ranged : range_of input.range_header total ≡ ok range
  pub placed : IsCopyOf s copy state
  pub usable_ : IsUsable copy checksum total
  pub read : IsRead c (attempt_of input s checksum total range copy state) r log

module _ (after : String → String → Bool) (c : Collaborators) (input : DeliverInput)
    (s : DeliverySnapshot) where
  abbrev Given : String → ℕ → Option ParsedRange → Type 0
  Given checksum total range =
      (s.verified_checksum_sha256 ≡ some checksum)
      × ((s.verified_byte_length ≡ some total) × (range_of input.range_header total ≡ ok range))

  delivered :
      (checksum : String) (total : ℕ) (range : Option ParsedRange) (copy : CopySnapshot)
      (state : DeliveryState)
      → Given checksum total range
      → IsCopyOf s copy state
      → usable_copy copy checksum total ≡ usable
      → (r : DeliveryResult) (log : List Call)
      → IsRead c (attempt_of input s checksum total range copy state) r log
      → IsDelivered c input s r log
  delivered checksum total range copy state g placed h r log read = record {
    checksum = checksum;
    total = total;
    range = range;
    copy = copy;
    state = state;
    verified_checksum = g.0;
    verified_length = g.1.0;
    ranged = g.1.1;
    placed = placed;
    usable_ = usable_copy-IsUsable copy checksum total h;
    read = read;
  }

  read_legacy-Gives :
      (checksum : String) (total : ℕ) (range : Option ParsedRange) (legacy : Option LegacyCopies)
      → s.configured_copies ≡ none
      → s.copies ≡ legacy
      → Given checksum total range
      → Gives after c
          (IsDelivered c input s)
          (read_legacy after c input s checksum total range legacy)
  read_legacy-Gives checksum total range none same p g = Ensures-throw _
  read_legacy-Gives checksum total range (some l) same p g =
      try_copy-Gives after c (IsDelivered c input s) _ _ (usable_copy l.hot checksum total)
        (λ u. delivered checksum total range l.hot DeliveryState.hot g (hot l same p) u)
        (try_canonical-Gives after c (IsDelivered c input s) _
          (usable_copy l.canonical checksum total)
          (λ u.
            delivered checksum total range l.canonical DeliveryState.canonical_fallback g
              (canonical l same p) u))

  read_copies-Gives :
      (checksum : String) (total : ℕ) (range : Option ParsedRange)
      (configurations : Option (List ConfiguredCopy)) (legacy : Option LegacyCopies)
      → s.configured_copies ≡ configurations
      → s.copies ≡ legacy
      → Given checksum total range
      → Gives after c
          (IsDelivered c input s)
          (read_copies after c input s checksum total range configurations)
  read_copies-Gives checksum total range (some l) legacy same p g =
      try_copies-Gives after c (IsDelivered c input s) _ checksum total (ordered_copies after l)
        (λ x h u.
          delivered checksum total range x.copy (state_of_role x.role) g
            (configured l x same (Holds-ordered_copies after c (λ y. y ≡ x) l h)) u)
  read_copies-Gives checksum total range none legacy same p g =
      subst
        (λ l.
          Gives after c (IsDelivered c input s)
            (read_legacy after c input s checksum total range l))
        (sym p) (read_legacy-Gives checksum total range legacy same p g)

  abbrev content_or : Bool → Thrown → String → ℕ → Result Thrown (String × ℕ)
  content_or b e x n = if b then err e else ok (x, n)

  pair-of_if :
      (b : Bool) (e : Thrown) (x x' : String) (n n' : ℕ)
      → content_or b e x n ≡ ok (x', n')
      → (some x ≡ some x') × (some n ≡ some n')
  pair-of_if true e x x' n n' h = grind arith
  pair-of_if false e x x' n n' h = (cc, cc)

  content-Given :
      (checksum : Option String) (total : Option ℕ) (v : String × ℕ)
      → verified_content s checksum total ≡ ok v
      → (checksum ≡ some v.0) × (total ≡ some v.1)
  content-Given none total v h = grind arith
  content-Given (some x) none v h = grind arith
  content-Given (some x) (some n) (x', n') h = pair-of_if _ _ x x' n n' h

  pub deliver_snapshot-Gives :
      Ensures Any (deliver_snapshot after c input s) (IsDelivered c input s) Any
  unfolding deliver_snapshot
  deliver_snapshot-Gives = given-Ensures (check_state s.registry_state) _ (λ u k.
      given-Ensures (verified_content s s.verified_checksum_sha256 s.verified_byte_length) _
        (λ content h. given-Ensures (range_of input.range_header content.1) _ (λ range h'.
          let both = content-Given s.verified_checksum_sha256 s.verified_byte_length content h in
          read_copies-Gives content.0 content.1 range s.configured_copies s.copies refl refl
            (both.0, (both.1, h')))))
