-- ===== src/Delivery/Attempt.antt =====
-- src/runtime-read-delivery.ts: `#attempt`, the reading of one copy, and what it is given.
use z_s_app.Prelude.{
  ℕ, String, Bool, true, false, not, Option, none, some, List, [], ◌∷◌, ◌++◌, filter, nat_beq,
  string_eq, codes, Result, ok,
}
use z_s_app.Prelude.Run.{Run, ◌>>=◌, ◌>>◌, pure, throw, call, try_catch}
use z_s_app.Delivery.Decimal.{decimal}
use z_s_app.Delivery.Errors.{
  Category, Headers, Thrown, unknown, SafeDiagnostic, refuses, read_failed, safe_diagnostic,
}
use z_s_app.Delivery.Range.{ParsedRange}
use z_s_app.Delivery.Copies.{DeliveryState, CopySnapshot, DeliverySnapshot}
use z_s_app.Replicas.Jobs.{ResolvedProviderReadTarget}

pub data Method : Type 0 where
  head_only get_body : Method

pub data GrantDisposition : Type 0 where
  inline attachment : GrantDisposition

-- `expires_at` is the time that `new Date` reads, if it reads one.
pub record ReadGrant : Type 0 where
  pub object_read_grant_id : String
  pub storage_object_id : String
  pub allowed_methods : List Method
  pub allow_range : Bool
  pub disposition : GrantDisposition
  pub file_name : Option (List ℕ)
  pub expires_at : Option ℕ

pub record DeliverInput : Type 0 where
  pub grant : ReadGrant
  pub caller_app_id : String
  pub method : Method
  pub range_header : Option (List ℕ)
  pub request_id : String

pub record BeginInput : Type 0 where
  pub storage_object_copy_id : String
  pub storage_object_id : String
  pub request_id : String
  pub expected_checksum_sha256 : String
  pub expected_byte_length : ℕ

pub data Outcome : Type 0 where
  succeeded : ℕ → Outcome
  failed : SafeDiagnostic → Outcome

-- what one attempt to read a copy is given
pub record Attempt : Type 0 where
  pub input : DeliverInput
  pub snapshot : DeliverySnapshot
  pub copy : CopySnapshot
  pub checksum : String
  pub total : ℕ
  pub expected_length : ℕ
  pub range : Option ParsedRange
  pub delivery_state : DeliveryState

pub data Call : Type 0 where
  snapshot : DeliverInput → Call
  begin_attempt : BeginInput → Call
  head : ResolvedProviderReadTarget → Call
  get : ResolvedProviderReadTarget → Option (List ℕ) → Call
  discard : ResolvedProviderReadTarget → Call
  finish_attempt : String → Outcome → Call
  append_event : Attempt → Call

-- `head` and `get` reply the length that the provider reports.
pub record Collaborators : Type 0 where
  pub snapshot : List Call → DeliverInput → Result Thrown (Option DeliverySnapshot)
  pub begin_attempt : List Call → BeginInput → Result Thrown String
  pub head : List Call → ResolvedProviderReadTarget → Result Thrown ℕ
  pub get : List Call → ResolvedProviderReadTarget → Option (List ℕ) → Result Thrown ℕ
  pub finish_attempt : List Call → String → Outcome → Result Thrown (Unit {0})
  pub append_event : List Call → Attempt → Result Thrown (Unit {0})

-- the attempt that the stream of the body finishes, and the length read
pub record Body : Type 0 where
  pub provider_attempt_id : String
  pub byte_length : ℕ

pub record DeliveryResult : Type 0 where
  pub status : ℕ
  pub headers : Headers
  pub body : Option Body
  pub delivery_state : DeliveryState

abbrev pub Action : Type 0 → Type 0
Action A = Run Call Thrown A

abbrev pub throw_if : Bool → Thrown → Action (Unit {0})
throw_if true e = throw e
throw_if false e = pure tt

abbrev pub disposition_text : GrantDisposition → List ℕ
disposition_text GrantDisposition.inline = codes "inline"
disposition_text GrantDisposition.attachment = codes "attachment"

abbrev pub content_disposition : GrantDisposition → Option (List ℕ) → List ℕ
content_disposition d none = disposition_text d
content_disposition d (some file_name) =
    disposition_text d
    ++ codes "; filename=\""
    ++ filter (λ c. not (nat_beq c b'"')) file_name
    ++ b'"' ∷ []

abbrev pub state_text : DeliveryState → List ℕ
state_text DeliveryState.hot = codes "hot"
state_text DeliveryState.canonical_fallback = codes "canonical-fallback"
state_text DeliveryState.replica = codes "replica"
state_text DeliveryState.primary = codes "primary"

abbrev pub length_of : ℕ → Option ParsedRange → ℕ
length_of total none = total
length_of total (some r) = r.byte_length

abbrev pub range_headers : Option ParsedRange → Headers
range_headers none = []
range_headers (some r) = ("content-range", r.content_range) ∷ []

unfoldable pub common_headers : Attempt → Headers
common_headers a =
    ("accept-ranges", codes "bytes")
    ∷ ("cache-control", codes "private, no-store, max-age=0")
    ∷ ("content-disposition", content_disposition a.input.grant.disposition a.input.grant.file_name)
    ∷ ("content-length", decimal (length_of a.total a.range))
    ∷ ("content-type", codes a.snapshot.verified_content_type)
    ∷ ("etag", b'"' ∷ codes a.checksum ++ b'"' ∷ [])
    ∷ ("x-zs-delivery-state", state_text a.delivery_state)
    ∷ range_headers a.range

abbrev pub status_of : Option ParsedRange → ℕ
status_of none = 200
status_of (some r) = 206

unfoldable pub delivery_result : Attempt → Option Body → DeliveryResult
unfolding common_headers
delivery_result a body = record {
  status = status_of a.range;
  headers = common_headers a;
  body = body;
  delivery_state = a.delivery_state;
}

abbrev pub provider_range_of : Option ParsedRange → Option (List ℕ)
provider_range_of none = none
provider_range_of (some r) = some r.provider_range

abbrev pub length_mismatch : Thrown
length_mismatch = read_failed "provider-read-length-mismatch" false true

abbrev pub begin_input : Attempt → BeginInput
begin_input a = record {
  storage_object_copy_id = a.copy.storage_object_copy_id;
  storage_object_id = a.snapshot.storage_object_id;
  request_id = a.input.request_id;
  expected_checksum_sha256 = a.checksum;
  expected_byte_length = a.expected_length;
}

abbrev pub rethrown : Thrown → Thrown
rethrown unknown = read_failed "provider-read-failed" true true
rethrown e = e

module _ (c : Collaborators) where
  -- `finalizeAttempt`
  unfoldable pub finalize_attempt : String → Outcome → Action (Unit {0})
  finalize_attempt id outcome =
      try_catch (call (Call.finish_attempt id outcome) (λ log. c.finish_attempt log id outcome))
        (λ _.
          throw (refuses Category.dependency_unavailable "read-attempt-recording-failed" 503 true))

  abbrev pub append_success_event : Attempt → Action (Unit {0})
  append_success_event a = call (Call.append_event a) (λ log. c.append_event log a)

  abbrev pub headed : Attempt → String → ℕ → Action DeliveryResult
  headed a id observed = do
    throw_if (not (nat_beq observed a.total)) length_mismatch
    finalize_attempt id (Outcome.succeeded observed)
    append_success_event a
    pure (delivery_result a none)

  -- `read.body.destroy(); read.close();`
  abbrev pub drop_read : ResolvedProviderReadTarget → Action (Unit {0})
  drop_read target = call (Call.discard target) (λ log. ok tt)

  abbrev pub gotten : Attempt → String → ℕ → Bool → Action DeliveryResult
  gotten a id observed true =
      pure (delivery_result a (some (record { provider_attempt_id = id; byte_length = observed })))
  gotten a id observed false = do drop_read a.copy.target; throw length_mismatch

  abbrev pub read_copy : Attempt → String → Method → Action DeliveryResult
  read_copy a id head_only = do
    observed ← call (Call.head a.copy.target) (λ log. c.head log a.copy.target)
    headed a id observed
  read_copy a id get_body = do
    observed ←
        call (Call.get a.copy.target (provider_range_of a.range))
          (λ log. c.get log a.copy.target (provider_range_of a.range))
    gotten a id observed (nat_beq observed a.expected_length)

  abbrev pub attempt_failed : String → Thrown → Action DeliveryResult
  attempt_failed id e = do
    finalize_attempt id (Outcome.failed (safe_diagnostic e))
    throw (rethrown e)

  abbrev pub begin : Attempt → Action String
  begin a = call (Call.begin_attempt (begin_input a)) (λ log. c.begin_attempt log (begin_input a))

  -- `#attempt`
  unfoldable pub attempt : Attempt → Action DeliveryResult
  unfolding finalize_attempt delivery_result safe_diagnostic
  attempt a = do id ← begin a; try_catch (read_copy a id a.input.method) (attempt_failed id)
