-- ===== src/Tests/Delivery.antt =====
-- src/runtime-read-delivery.ts: ranges, and a delivery that falls back to the second copy.
use z_s_app.Prelude.{
  List, ℕ, ◌≡◌, refl, Bool, true, false, none, some, [], ◌∷◌, String, Result, ok, err, codes, arith,
}
use z_s_app.Config.Text.{utf16_length, is_space}
use z_s_app.Replicas.Jobs.{CopyRole, ResolvedProviderReadTarget}
use z_s_app.Delivery.Decimal.{
  decimal, decimal_from, number, number_from, span_digits, trim_start, trim_end,
}
use z_s_app.Delivery.Errors.{Thrown, provider, safe_diagnostic}
use z_s_app.Delivery.Range.{parsed, bounds, range_groups, parse_single_byte_range}
use z_s_app.Delivery.Range.Bounds.{IsWithin, parse_single_byte_range-IsWithin}
use z_s_app.Delivery.Range.Printed.{parse_single_byte_range-printed}
use z_s_app.Delivery.Stream.{
  StreamCall, StreamStep, pulled, aborts, cancelled, replied, chunk, done, threw, streaming,
  cancelled_diagnostic, complete_stream, fail_stream, pick, run_stream,
}
use z_s_app.Delivery.Stream.Once.{IsOnce, run_stream-IsOnce}
use z_s_app.Delivery.Copies.{
  CopyState, RegistryState, DeliveryState, ConfiguredRole, CopySnapshot, DeliverySnapshot,
  usable_copy, insert_copy, ordered_copies, is_mime,
}
use z_s_app.Delivery.Attempt.{
  get_body, GrantDisposition, DeliverInput, DeliveryResult, Collaborators, finalize_attempt,
  common_headers, delivery_result, attempt,
}
use z_s_app.Delivery.Coordinator.{try_copies, deliver_snapshot, check_grant, range_of, deliver}
use z_s_app.Delivery.Coordinator.Authority.{IsGranted, deliver-IsGranted}
use z_s_app.Delivery.Coordinator.Protocol.Attempts.{idle, at_start, IsAtRest}
use z_s_app.Delivery.Coordinator.Protocol.{IsFinished, deliver-IsFinished}

deliveries : Unit {0}
unfolding utf16_length is_space decimal decimal_from number number_from span_digits trim_start
    trim_end safe_diagnostic parsed bounds range_groups parse_single_byte_range usable_copy
    insert_copy ordered_copies is_mime finalize_attempt common_headers delivery_result attempt
    try_copies deliver_snapshot check_grant range_of deliver
deliveries = tt

last_bytes : parse_single_byte_range (codes " bytes=-5 ") 12 ≡ ok (parsed 7 11 12)
unfolding deliveries
last_bytes = refl

parse_single_byte_range-IsWithin_example : IsWithin 12 (parsed 7 11 12)
parse_single_byte_range-IsWithin_example =
    parse_single_byte_range-IsWithin (codes " bytes=-5 ") 12 (parsed 7 11 12) last_bytes

parse_single_byte_range-printed_example :
    parse_single_byte_range (parsed 7 11 12).provider_range 12 ≡ ok (parsed 7 11 12)
parse_single_byte_range-printed_example =
    parse_single_byte_range-printed 7 11 12 (omega arith) (omega arith) refl

abbrev hash : String
hash = "aaaaaaaabbbbbbbbccccccccddddddddeeeeeeeeffffffff0000000011111111"

abbrev target : CopyRole → ResolvedProviderReadTarget
target role = record {
  provider_role = role;
  provider_id = "p1";
  bucket_label = "b1";
  internal_locator = "o/1";
  credential_secret_reference_id = "env:KEY";
}

abbrev copy : String → CopyRole → CopySnapshot
copy id role = record {
  storage_object_copy_id = id;
  state = CopyState.verified;
  observed_checksum_sha256 = some hash;
  observed_byte_length = some 12;
  latest_verified_at = some "2026-01-01T00:00:00Z";
  target = target role;
}

abbrev snapshot : DeliverySnapshot
snapshot = record {
  storage_object_id = "o1";
  caller_app_id = "app";
  registry_state = RegistryState.active;
  verified_checksum_sha256 = some hash;
  verified_byte_length = some 12;
  verified_content_type = "image/png";
  copies = none;
  configured_copies = some (
      record { role = ConfiguredRole.primary; order = 0; copy = copy "c1" CopyRole.primary }
      ∷ record { role = ConfiguredRole.replica; order = 1; copy = copy "c2" CopyRole.replica }
      ∷ []);
}

abbrev input : DeliverInput
input = record {
  grant = record {
    object_read_grant_id = "g1";
    storage_object_id = "o1";
    allowed_methods = get_body ∷ [];
    allow_range = true;
    disposition = GrantDisposition.inline;
    file_name = none;
    expires_at = some 100;
  };
  caller_app_id = "app";
  method = get_body;
  range_header = some (codes "bytes=2-5");
  request_id = "r1";
}

-- The replica cannot be read.
abbrev reply_length : CopyRole → Result Thrown ℕ
reply_length CopyRole.replica = err (
    provider
      (record { code = "provider-read-missing"; retryable = true; fallback_eligible = true }))
reply_length _ = ok 4

abbrev collaborators : Collaborators
collaborators = record {
  snapshot = λ log input. ok (some snapshot);
  begin_attempt = λ log b. ok b.storage_object_copy_id;
  head = λ log t. reply_length t.provider_role;
  get = λ log t range. reply_length t.provider_role;
  finish_attempt = λ log id outcome. ok tt;
  append_event = λ log a. ok tt;
}

abbrev after : String → String → Bool
after x y = false

delivered_part : (r : DeliveryResult) × ((deliver after collaborators input 50 []).0 ≡ ok r)
unfolding deliveries
delivered_part = (_, refl)

delivered_as : delivered_part.0.delivery_state ≡ DeliveryState.primary
unfolding delivered_part
delivered_as = refl

deliver-IsGranted_example :
    IsGranted collaborators input 50 [] delivered_part.0 (deliver after collaborators input 50 []).1
deliver-IsGranted_example =
    deliver-IsGranted after collaborators input 50 [] delivered_part.0 delivered_part.1

nothing_begun : IsAtRest collaborators []
nothing_begun = record { phase = idle; closed = refl; tidy = at_start }

deliver-IsFinished_example :
    IsFinished after collaborators (deliver after collaborators input 50 [])
deliver-IsFinished_example = deliver-IsFinished after collaborators input 50 [] nothing_begun

-- No call throws.
abbrev returns : StreamCall → List StreamCall → Bool
returns k log = true

-- The stream is cancelled, and the signal aborted, while the success is being recorded.
abbrev interrupted : List StreamStep
interrupted =
    pulled
    ∷ replied 0 (chunk (1 ∷ []))
    ∷ pulled
    ∷ replied 0 done
    ∷ cancelled
    ∷ replied 0 done
    ∷ aborts
    ∷ replied 1 done
    ∷ []

run_stream-IsOnce_example : IsOnce returns (run_stream returns interrupted (streaming false))
run_stream-IsOnce_example = run_stream-IsOnce returns interrupted false

stream_finished_once :
    (run_stream returns interrupted (streaming false)).calls
    ≡ StreamCall.close_controller
      ∷ StreamCall.iterator_return
      ∷ StreamCall.on_success
      ∷ StreamCall.close_source
      ∷ StreamCall.next_chunk
      ∷ StreamCall.enqueue (1 ∷ [])
      ∷ StreamCall.next_chunk
      ∷ []
unfolding run_stream complete_stream fail_stream pick
stream_finished_once = refl

-- The signal is aborted while a chunk is awaited, which then fails.
aborted_once :
    (run_stream returns
      (pulled ∷ aborts ∷ replied 1 threw ∷ cancelled ∷ [])
      (streaming false)).calls
    ≡ StreamCall.iterator_return
      ∷ StreamCall.on_failure cancelled_diagnostic
      ∷ StreamCall.close_source
      ∷ StreamCall.destroy_source
      ∷ StreamCall.next_chunk
      ∷ []
unfolding run_stream complete_stream fail_stream pick
aborted_once = refl
