-- ===== src/Delivery/Range/Bounds.antt =====
-- src/runtime-read-delivery.ts: what `parseSingleByteRange` returns, and what it reads back.
use z_s_app.Prelude.{
  ℕ, ◌+◌, ◌≤◌, ◌<◌, ◌≡◌, refl, subst, Bool, true, false, not, ◌||◌, List, [], ◌∷◌, ◌++◌, codes, any,
  ltb, leb, nat_beq, Result, ok, err, Option, none, some, arith, if◌then◌else◌,
}
use z_s_app.Config.Text.{utf16_length}
use z_s_app.Delivery.Decimal.{decimal, number, is_safe, trim}
use z_s_app.Delivery.Errors.{ObjectReadDeliveryError}
use z_s_app.Delivery.Range.{
  ParsedRange, parsed, from_suffix, up_to, from_start, bounds, range_groups, with_bounds,
  with_groups, parse_single_byte_range,
}

-- A range that is not empty and lies in the object, with its length and its texts.
pub record IsWithin (total : ℕ) (r : ParsedRange) : Type 0 where
  pub ordered : r.start ≤ r.end
  pub below : r.end < total
  pub counted : r.byte_length + r.start ≡ r.end + 1
  pub requested : r.provider_range ≡ codes "bytes=" ++ decimal r.start ++ b'-' ∷ decimal r.end

abbrev AreWithin : ℕ → Result ObjectReadDeliveryError (ℕ × ℕ) → Type 0
AreWithin total (ok (start, end)) = (start ≤ end) × (end < total)
AreWithin total (err e) = Unit {0}

AreWithin-from_suffix : (suffix total : ℕ) → 0 < total → AreWithin total (from_suffix suffix total)
AreWithin-from_suffix suffix total h = ground arith

AreWithin-up_to : (start end total : ℕ) → start < total → AreWithin total (up_to start end total)
AreWithin-up_to start end total h = ground arith

AreWithin-unless :
    (total : ℕ) (x : Result ObjectReadDeliveryError (ℕ × ℕ)) (b : Bool)
    (e : ObjectReadDeliveryError)
    → (b ≡ false → AreWithin total x)
    → AreWithin total (if b then err e else x)
AreWithin-unless total x true e h = tt
AreWithin-unless total x false e h = h refl

AreWithin-from_start :
    (start : ℕ) (right : List ℕ) (total : ℕ)
    → 0 < total
    → AreWithin total (from_start start right total)
AreWithin-from_start start [] total h = ground arith
AreWithin-from_start start (d ∷ s) total h =
    AreWithin-unless total _ (not (is_safe start) || leb total start) _
      (λ allowed. AreWithin-up_to start (number (d ∷ s)) total (ground arith))

AreWithin-bounds :
    (left right : List ℕ) (total : ℕ) → 0 < total → AreWithin total (bounds left right total)
unfolding bounds
AreWithin-bounds [] [] total h = tt
AreWithin-bounds [] (d ∷ right) total h = AreWithin-from_suffix (number (d ∷ right)) total h
AreWithin-bounds (d ∷ left) right total h = AreWithin-from_start (number (d ∷ left)) right total h

parsed-IsWithin :
    (start end total : ℕ) → start ≤ end → end < total → IsWithin total (parsed start end total)
unfolding parsed
parsed-IsWithin start end total h k = record {
  ordered = h;
  below = k;
  counted = omega arith;
  requested = refl;
}

with_bounds-IsWithin :
    (total : ℕ) (b : Result ObjectReadDeliveryError (ℕ × ℕ)) (r : ParsedRange)
    → AreWithin total b
    → with_bounds total b ≡ ok r
    → IsWithin total r
with_bounds-IsWithin total (ok (start, end)) r h same =
    subst (IsWithin total) (cc) (parsed-IsWithin start end total h.0 h.1)
with_bounds-IsWithin total (err e) r h same = grind arith

with_groups-IsWithin :
    (total : ℕ) (g : Option (List ℕ × List ℕ)) (r : ParsedRange)
    → 0 < total
    → with_groups total g ≡ ok r
    → IsWithin total r
with_groups-IsWithin total none r h same = grind arith
with_groups-IsWithin total (some (left, right)) r h same =
    with_bounds-IsWithin total (bounds left right total) r (AreWithin-bounds left right total h)
      same

ok-of_if :
    {A : Type 0} (b : Bool) (e : ObjectReadDeliveryError) (x : Result ObjectReadDeliveryError A)
    {v : A}
    → (if b then err e else x) ≡ ok v
    → (b ≡ false) × (x ≡ ok v)
ok-of_if true e x h = grind arith
ok-of_if false e x h = (refl, h)

-- A range that is read from a header is not empty and lies in the object. Its length is the number of
-- its bytes, and what is requested of the provider prints its bounds.
pub parse_single_byte_range-IsWithin :
    (value : List ℕ) (total : ℕ) (r : ParsedRange)
    → parse_single_byte_range value total ≡ ok r
    → IsWithin total r
unfolding parse_single_byte_range
parse_single_byte_range-IsWithin value total r h =
    let first = ok-of_if (not (is_safe total) || leb total 0) _ _ h in
    let second =
      ok-of_if (ltb 128 (utf16_length value) || any (λ c. nat_beq c b',') value) _ _ first.1 in
    with_groups-IsWithin total (range_groups (trim value)) r (ground arith) second.1
