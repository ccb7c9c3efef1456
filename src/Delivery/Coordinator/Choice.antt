-- ===== src/Delivery/Coordinator/Choice.antt =====
-- src/runtime-read-delivery.ts: the copy that a delivery reads.
use z_s_app.Prelude.{
  ◌⊎◌, Holds, here, there, option_beq_iff, string_eq, nat_eq, option_eq, ◌==◌, ◌||◌, ℕ, ◌≡◌, refl,
  String, Bool, true, false, not, none, some, List, [], ◌∷◌, if◌then◌else◌, inl, inr, arith,
}
use z_s_app.Prelude.Run.{Ensures, Ensures-catch, Ensures-weaken, Ensures-throw, throw}
use z_s_app.Delivery.Errors.{Thrown, delivery, provider, unknown, is_fallback_eligible}
use z_s_app.Delivery.Copies.{
  CopySnapshot, ConfiguredCopy, LegacyCopies, DeliverySnapshot, DeliveryState, Disposition, usable,
  fallback, conflict, usable_copy, state_of_role, ordered_copies, is_verified, is_some, insert_copy,
  sorts_after,
}
use z_s_app.Delivery.Attempt.{Action, Attempt, DeliveryResult, Call, Collaborators}
use z_s_app.Delivery.Coordinator.{unavailable_or, try_copy, try_copies, try_canonical}
use z_s_app.Delivery.Coordinator.Reads.{Any, IsRead, attempt-Ensures}

-- A copy that is verified, with the checksum and the length of the object.
pub record IsUsable (copy : CopySnapshot) (checksum : String) (total : ℕ) : Type 0 where
  pub state : is_verified copy.state ≡ true
  pub checksums : copy.observed_checksum_sha256 ≡ some checksum
  pub byte_lengths : copy.observed_byte_length ≡ some total

-- one of the copies of the snapshot, and what it is delivered as
pub data IsCopyOf (s : DeliverySnapshot) : CopySnapshot → DeliveryState → Type 0 where
  configured :
      (copies : List ConfiguredCopy) (x : ConfiguredCopy)
      → s.configured_copies ≡ some copies
      → Holds (λ y. y ≡ x) copies
      → IsCopyOf s x.copy (state_of_role x.role)
  hot :
      (copies : LegacyCopies)
      → s.configured_copies ≡ none
      → s.copies ≡ some copies
      → IsCopyOf s copies.hot DeliveryState.hot
  canonical :
      (copies : LegacyCopies)
      → s.configured_copies ≡ none
      → s.copies ≡ some copies
      → IsCopyOf s copies.canonical DeliveryState.canonical_fallback

usable-of_tests :
    (v p q t : Bool)
    → (if not v
        then fallback
        else if not p || not q
        then conflict
        else if not t
        then fallback
        else usable)
      ≡ usable
    → (v ≡ true) × ((p ≡ true) × (q ≡ true))
usable-of_tests v p q t h = ground arith

pub usable_copy-IsUsable :
    (copy : CopySnapshot) (checksum : String) (total : ℕ)
    → usable_copy copy checksum total ≡ usable
    → IsUsable copy checksum total
unfolding usable_copy
usable_copy-IsUsable copy checksum total h =
    let tests =
      usable-of_tests (is_verified copy.state) (copy.observed_checksum_sha256 == some checksum)
        (copy.observed_byte_length == some total) (is_some copy.latest_verified_at) h in
    record {
      state = tests.0;
      checksums = (option_beq_iff string_eq _ _).0 tests.1.0;
      byte_lengths = (option_beq_iff nat_eq _ _).0 tests.1.1;
    }

module _ (after : String → String → Bool) (c : Collaborators) where
  Holds-if :
      (P : ConfiguredCopy → Type 0) (b : Bool) (l m : List ConfiguredCopy)
      → Holds P (if b then l else m)
      → Holds P l ⊎ Holds P m
  Holds-if P true l m h = inl h
  Holds-if P false l m h = inr h

  Holds-second :
      (P : ConfiguredCopy → Type 0) (x y : ConfiguredCopy) (l : List ConfiguredCopy)
      → Holds P (x ∷ l)
      → Holds P (x ∷ y ∷ l)
  Holds-second P x y l (here p) = here p
  Holds-second P x y l (there h) = there (there h)

  Holds-insert_copy :
      (P : ConfiguredCopy → Type 0) (x : ConfiguredCopy) (l : List ConfiguredCopy)
      → Holds P (insert_copy after x l)
      → Holds P (x ∷ l)
  unfolding insert_copy
  Holds-insert_copy P x [] h = h
  Holds-insert_copy P x (y ∷ l) h =
      elim (Holds-if P (sorts_after after x y) (y ∷ insert_copy after x l) (x ∷ y ∷ l) h) [
        | inl (here p) ↦ there (here p)
        | inl (there q) ↦ Holds-second P x y l (Holds-insert_copy P x l q)
        | inr k ↦ k
      ]

  Holds-tail :
      (P : ConfiguredCopy → Type 0) (x : ConfiguredCopy) (l m : List ConfiguredCopy)
      → (Holds P l → Holds P m)
      → Holds P (x ∷ l)
      → Holds P (x ∷ m)
  Holds-tail P x l m f (here p) = here p
  Holds-tail P x l m f (there h) = there (f h)

  pub Holds-ordered_copies :
      (P : ConfiguredCopy → Type 0) (l : List ConfiguredCopy)
      → Holds P (ordered_copies after l)
      → Holds P l
  unfolding ordered_copies
  Holds-ordered_copies P [] h = h
  Holds-ordered_copies P (x ∷ l) h =
      Holds-tail P x (ordered_copies after l) l (Holds-ordered_copies P l)
        (Holds-insert_copy P x (ordered_copies after l) h)

  abbrev pub Gives : (DeliveryResult → List Call → Type 0) → Action DeliveryResult → Type 0
  Gives Q m = Ensures Any m Q Any

  or_later-Gives :
      (Q : DeliveryResult → List Call → Type 0) (later : Action DeliveryResult) (b : Bool)
      (e : Thrown)
      → Gives Q later
      → Gives Q (if b then later else throw e)
  or_later-Gives Q later true e h = h
  or_later-Gives Q later false e h = Ensures-throw e

  pub try_copy-Gives :
      (Q : DeliveryResult → List Call → Type 0) (a : Attempt) (later : Action DeliveryResult)
      (d : Disposition)
      → (d ≡ usable → (r : DeliveryResult) (log : List Call) → IsRead c a r log → Q r log)
      → Gives Q later
      → Gives Q (try_copy after c a later d)
  try_copy-Gives Q a later conflict f h = Ensures-throw _
  try_copy-Gives Q a later fallback f h = h
  try_copy-Gives Q a later usable f h =
      Ensures-catch {R = Any}
        (Ensures-weaken (attempt-Ensures c a) (λ log p. p) (f refl) (λ log p. p))
        (λ e. or_later-Gives Q later (is_fallback_eligible e) e h)

  unavailable_or-Gives :
      (Q : DeliveryResult → List Call → Type 0) (e : Thrown) → Gives Q (unavailable_or e)
  unavailable_or-Gives Q (provider e) = Ensures-throw _
  unavailable_or-Gives Q (delivery e) = Ensures-throw _
  unavailable_or-Gives Q unknown = Ensures-throw _

  pub try_canonical-Gives :
      (Q : DeliveryResult → List Call → Type 0) (a : Attempt) (d : Disposition)
      → (d ≡ usable → (r : DeliveryResult) (log : List Call) → IsRead c a r log → Q r log)
      → Gives Q (try_canonical after c a d)
  try_canonical-Gives Q a conflict f = Ensures-throw _
  try_canonical-Gives Q a fallback f = Ensures-throw _
  try_canonical-Gives Q a usable f =
      Ensures-catch {R = Any}
        (Ensures-weaken (attempt-Ensures c a) (λ log p. p) (f refl) (λ log p. p))
        (unavailable_or-Gives Q)

  pub try_copies-Gives :
      (Q : DeliveryResult → List Call → Type 0) (make : ConfiguredCopy → Attempt)
      (checksum : String) (total : ℕ) (l : List ConfiguredCopy)
      → ((x : ConfiguredCopy)
          → Holds (λ y. y ≡ x) l
          → usable_copy x.copy checksum total ≡ usable
          → (r : DeliveryResult) (log : List Call) → IsRead c (make x) r log
          → Q r log)
      → Gives Q (try_copies after c make checksum total l)
  unfolding try_copies
  try_copies-Gives Q make checksum total [] f = Ensures-throw _
  try_copies-Gives Q make checksum total (x ∷ rest) f =
      try_copy-Gives Q (make x) _ (usable_copy x.copy checksum total) (f x (here refl))
        (try_copies-Gives Q make checksum total rest (λ y h. f y (there h)))
