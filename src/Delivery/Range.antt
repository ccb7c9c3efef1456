-- ===== src/Delivery/Range.antt =====
-- src/runtime-read-delivery.ts: `parseSingleByteRange`.
pub mod Bounds
pub mod Printed
use z_s_app.Prelude.{
  ℕ, zero, suc, ◌+◌, ◌-◌, String, Bool, true, false, not, ◌&&◌, ◌||◌, List, [], ◌∷◌, ◌++◌, codes,
  any, ltb, leb, nat_beq, if◌then◌else◌, Result, ok, err, Option, none, some,
}
use z_s_app.Config.Text.{utf16_length}
use z_s_app.Delivery.Decimal.{decimal, number, span_digits, is_safe, trim}
use z_s_app.Delivery.Errors.{Category, Headers, ObjectReadDeliveryError}

pub record ParsedRange : Type 0 where
  pub start : ℕ
  pub end : ℕ
  pub byte_length : ℕ
  pub provider_range : List ℕ
  pub content_range : List ℕ

abbrev pub range_error : String → ℕ → ObjectReadDeliveryError
range_error code total = record {
  category = Category.invalid_request;
  code = code;
  status = 416;
  retryable = false;
  headers =
      ("accept-ranges", codes "bytes") ∷ ("content-range", codes "bytes */" ++ decimal total) ∷ [];
}

abbrev pub unverified_length : ObjectReadDeliveryError
unverified_length = record {
  category = Category.internal;
  code = "invalid-verified-byte-length";
  status = 500;
  retryable = false;
  headers = [];
}

abbrev pub minimum : ℕ → ℕ → ℕ
minimum m n = if leb m n then m else n

-- a range from `start` to `end`, with its two printed forms
unfoldable pub parsed : ℕ → ℕ → ℕ → ParsedRange
parsed start end total = record {
  start = start;
  end = end;
  byte_length = end - start + 1;
  provider_range = codes "bytes=" ++ decimal start ++ b'-' ∷ decimal end;
  content_range = codes "bytes " ++ decimal start ++ b'-' ∷ decimal end ++ b'/' ∷ decimal total;
}

-- the last `suffix` bytes; `-` stops at 0, as `Math.max` does here
abbrev pub from_suffix : ℕ → ℕ → Result ObjectReadDeliveryError (ℕ × ℕ)
from_suffix suffix total =
    if not (is_safe suffix) || leb suffix 0
    then err (range_error "invalid-range" total)
    else ok (total - suffix, total - 1)

abbrev pub up_to : ℕ → ℕ → ℕ → Result ObjectReadDeliveryError (ℕ × ℕ)
up_to start end total =
    if not (is_safe end) || ltb end start
    then err (range_error "invalid-range" total)
    else ok (start, minimum end (total - 1))

abbrev pub from_start : ℕ → List ℕ → ℕ → Result ObjectReadDeliveryError (ℕ × ℕ)
from_start start right total =
    if not (is_safe start) || leb total start
    then err (range_error "range-not-satisfiable" total)
    else elim right [ [] ↦ ok (start, total - 1) | d ∷ s ↦ up_to start (number (d ∷ s)) total ]

-- `start` and `end` of the two groups of digits
unfoldable pub bounds : List ℕ → List ℕ → ℕ → Result ObjectReadDeliveryError (ℕ × ℕ)
bounds [] [] total = err (range_error "invalid-range" total)
bounds [] (d ∷ right) total = from_suffix (number (d ∷ right)) total
bounds (d ∷ left) right total = from_start (number (d ∷ left)) right total

abbrev strip_prefix : List ℕ → List ℕ → Option (List ℕ)
strip_prefix [] s = some s
strip_prefix (p ∷ ps) [] = none
strip_prefix (p ∷ ps) (c ∷ s) = if nat_beq p c then strip_prefix ps s else none

abbrev pub closed : List ℕ → List ℕ × List ℕ → Option (List ℕ × List ℕ)
closed left (right, []) = some (left, right)
closed left (right, c ∷ s) = none

abbrev pub groups_from : List ℕ × List ℕ → Option (List ℕ × List ℕ)
groups_from (left, []) = none
groups_from (left, c ∷ s) = if nat_beq c b'-' then closed left (span_digits s) else none

abbrev pub after_prefix : Option (List ℕ) → Option (List ℕ × List ℕ)
after_prefix none = none
after_prefix (some s) = groups_from (span_digits s)

-- the groups of /^bytes=(\d*)-(\d*)$/
unfoldable pub range_groups : List ℕ → Option (List ℕ × List ℕ)
range_groups s = after_prefix (strip_prefix (codes "bytes=") s)

abbrev pub with_bounds :
    ℕ → Result ObjectReadDeliveryError (ℕ × ℕ) → Result ObjectReadDeliveryError ParsedRange
with_bounds total (ok (start, end)) = ok (parsed start end total)
with_bounds total (err e) = err e

abbrev pub with_groups : ℕ → Option (List ℕ × List ℕ) → Result ObjectReadDeliveryError ParsedRange
with_groups total none = err (range_error "invalid-range" total)
with_groups total (some (left, right)) = with_bounds total (bounds left right total)

abbrev pub range_refusal : List ℕ → String
range_refusal value =
    if any (λ c. nat_beq c b',') value then "multiple-ranges-not-supported" else "invalid-range"

unfoldable pub parse_single_byte_range : List ℕ → ℕ → Result ObjectReadDeliveryError ParsedRange
unfolding bounds range_groups
parse_single_byte_range value total =
    if not (is_safe total) || leb total 0
    then err unverified_length
    else if ltb 128 (utf16_length value) || any (λ c. nat_beq c b',') value
    then err (range_error (range_refusal value) total)
    else with_groups total (range_groups (trim value))
