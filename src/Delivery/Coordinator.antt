-- ===== src/Delivery/Coordinator.antt =====
-- src/runtime-read-delivery.ts: `ObjectReadDeliveryCoordinator.deliver`.
pub mod Protocol
pub mod Reads
pub mod Choice
pub mod Authority
pub mod Soundness
use z_s_app.Prelude.{
  ℕ, String, Bool, true, false, not, ◌&&◌, ◌||◌, Option, none, some, List, [], ◌∷◌, any, leb, ◌==◌,
  string_eq, if◌then◌else◌, codes, Result, ok, err,
}
use z_s_app.Prelude.Run.{
  Run, ◌>>=◌, ◌>>◌, pure, throw, call, continue, recover_with, try_catch, given,
}
use z_s_app.Delivery.Decimal.{is_safe}
use z_s_app.Delivery.Errors.{
  Category, Thrown, delivery, provider, unknown, ObjectReadDeliveryError, ProviderReadFailure,
  refuses, is_fallback_eligible,
}
use z_s_app.Delivery.Range.{ParsedRange, parse_single_byte_range}
use z_s_app.Delivery.Copies.{
  RegistryState, DeliveryState, CopySnapshot, ConfiguredCopy, LegacyCopies, DeliverySnapshot,
  Disposition, usable, fallback, conflict, usable_copy, state_of_role, ordered_copies, is_sha256,
  is_mime,
}
use z_s_app.Delivery.Attempt.{
  Action, Attempt, Method, head_only, get_body, DeliverInput, DeliveryResult, Call, Collaborators,
  throw_if, length_of, attempt,
}

abbrev pub is_method : Method → Method → Bool
is_method head_only head_only = true
is_method get_body get_body = true
is_method _ _ = false

-- `new Date(expiresAt).getTime() <= now`, which is false for a time that cannot be read
abbrev pub grant_expired : Option ℕ → ℕ → Bool
grant_expired none now = false
grant_expired (some time) now = leb time now

abbrev pub is_some_range : Option (List ℕ) → Bool
is_some_range none = false
is_some_range (some r) = true

abbrev pub unavailable : Bool → Thrown
unavailable retryable =
    refuses Category.dependency_unavailable "object-content-unavailable" 503 retryable

abbrev pub copy_conflict : Thrown
copy_conflict = refuses Category.not_ready "storage-object-copy-state-conflict" 409 false

abbrev pub check_state : RegistryState → Result Thrown (Unit {0})
check_state RegistryState.reserved =
    err (refuses Category.not_ready "storage-object-not-ready" 409 true)
check_state RegistryState.delete_pending =
    err (refuses Category.not_ready "storage-object-unavailable" 410 false)
check_state RegistryState.deleted =
    err (refuses Category.not_ready "storage-object-unavailable" 410 false)
check_state _ = ok tt

abbrev pub unverified : Thrown
unverified = refuses Category.not_ready "storage-object-unverified" 409 false

-- the checksum and the length of a verified object
abbrev pub verified_content :
    DeliverySnapshot → Option String → Option ℕ → Result Thrown (String × ℕ)
verified_content s none total = err unverified
verified_content s (some checksum) none = err unverified
verified_content s (some checksum) (some total) =
    if not (is_sha256 checksum)
      || (not (is_safe total) || (leb total 0 || not (is_mime (codes s.verified_content_type))))
    then err unverified
    else ok (checksum, total)

abbrev pub parsed_or_thrown :
    Result ObjectReadDeliveryError ParsedRange → Result Thrown (Option ParsedRange)
parsed_or_thrown (ok r) = ok (some r)
parsed_or_thrown (err e) = err (delivery e)

unfoldable pub range_of : Option (List ℕ) → ℕ → Result Thrown (Option ParsedRange)
unfolding parse_single_byte_range
range_of none total = ok none
range_of (some header) total = parsed_or_thrown (parse_single_byte_range header total)

abbrev pub attempt_of :
    DeliverInput
    → DeliverySnapshot
    → String
    → ℕ
    → Option ParsedRange
    → CopySnapshot
    → DeliveryState
    → Attempt
attempt_of input s checksum total range copy state = record {
  input = input;
  snapshot = s;
  copy = copy;
  checksum = checksum;
  total = total;
  expected_length = length_of total range;
  range = range;
  delivery_state = state;
}

-- the `catch` that falls back to the next copy
abbrev pub or_later : Action DeliveryResult → Thrown → Action DeliveryResult
or_later later e = if is_fallback_eligible e then later else throw e

-- the `catch` of the last copy
abbrev pub unavailable_or : Thrown → Action DeliveryResult
unavailable_or (provider e) = throw (unavailable e.retryable)
unavailable_or e = throw e

abbrev pub not_found : Thrown
not_found = refuses Category.not_ready "storage-object-not-found" 404 false

abbrev pub snapshot_for : DeliverInput → Option DeliverySnapshot → Result Thrown DeliverySnapshot
snapshot_for input none = err not_found
snapshot_for input (some s) =
    if not (s.caller_app_id == input.caller_app_id) then err not_found else ok s

unfoldable pub check_grant : DeliverInput → ℕ → Result Thrown (Unit {0})
check_grant input now =
    if grant_expired input.grant.expires_at now
    then err (refuses Category.unauthenticated "object-read-grant-expired" 401 false)
    else if not (any (is_method input.method) input.grant.allowed_methods)
    then err (refuses Category.unauthorized "object-read-method-not-allowed" 403 false)
    else if is_some_range input.range_header && not input.grant.allow_range
    then err (refuses Category.unauthorized "object-read-range-not-allowed" 403 false)
    else ok tt

module _ (after : String → String → Bool) (c : Collaborators) where
  abbrev pub try_copy : Attempt → Action DeliveryResult → Disposition → Action DeliveryResult
  try_copy a later conflict = throw copy_conflict
  try_copy a later fallback = later
  try_copy a later usable = try_catch (attempt c a) (or_later later)

  -- the loop over the configured copies; `make` is what an attempt to read a copy is given
  unfoldable pub try_copies :
      (ConfiguredCopy → Attempt) → String → ℕ → List ConfiguredCopy → Action DeliveryResult
  try_copies make checksum total [] = throw (unavailable true)
  try_copies make checksum total (x ∷ rest) =
      let later = try_copies make checksum total rest in
      try_copy (make x) later (usable_copy x.copy checksum total)

  abbrev pub try_canonical : Attempt → Disposition → Action DeliveryResult
  try_canonical a conflict = throw copy_conflict
  try_canonical a fallback = throw (unavailable true)
  try_canonical a usable = try_catch (attempt c a) unavailable_or

  abbrev pub read_legacy :
      DeliverInput
      → DeliverySnapshot
      → String
      → ℕ
      → Option ParsedRange
      → Option LegacyCopies
      → Action DeliveryResult
  read_legacy input s checksum total range none = throw (unavailable true)
  read_legacy input s checksum total range (some copies) =
      try_copy (attempt_of input s checksum total range copies.hot DeliveryState.hot)
        (try_canonical
          (attempt_of input s checksum total range copies.canonical
            DeliveryState.canonical_fallback)
          (usable_copy copies.canonical checksum total))
        (usable_copy copies.hot checksum total)

  abbrev pub read_copies :
      DeliverInput
      → DeliverySnapshot
      → String
      → ℕ
      → Option ParsedRange
      → Option (List ConfiguredCopy)
      → Action DeliveryResult
  read_copies input s checksum total range (some copies) =
      try_copies (λ x. attempt_of input s checksum total range x.copy (state_of_role x.role))
        checksum total (ordered_copies after copies)
  read_copies input s checksum total range none = read_legacy input s checksum total range s.copies

  unfoldable pub deliver_snapshot : DeliverInput → DeliverySnapshot → Action DeliveryResult
  unfolding attempt try_copies
  deliver_snapshot input s = do
    given (check_state s.registry_state)
    content ← given (verified_content s s.verified_checksum_sha256 s.verified_byte_length)
    range ← given (range_of input.range_header content.1)
    read_copies input s content.0 content.1 range s.configured_copies

  abbrev pub read_snapshot : DeliverInput → Action (Option DeliverySnapshot)
  read_snapshot input = call (Call.snapshot input) (λ log. c.snapshot log input)

  unfoldable pub deliver : DeliverInput → ℕ → Action DeliveryResult
  unfolding deliver_snapshot check_grant
  deliver input now = do
    given (check_grant input now)
    found ← read_snapshot input
    s ← given (snapshot_for input found)
    deliver_snapshot input s
