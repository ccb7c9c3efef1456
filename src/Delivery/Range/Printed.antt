-- ===== src/Delivery/Range/Printed.antt =====
-- src/runtime-read-delivery.ts: `parseSingleByteRange` on a printed range.
use z_s_app.Prelude.{
  ℕ, ◌-◌, ◌≤◌, ◌<◌, ◌≡◌, refl, sym, ap, ◌∙◌, Bool, true, false, not, ◌&&◌, ◌||◌, List, [], ◌∷◌,
  ◌++◌, codes, any, every, length, ltb, leb, nat_beq, ok, some, arith, if-of_true, if-of_false,
  length-append,
}
use z_s_app.Config.Text.{utf16_length, is_space}
use z_s_app.Delivery.Decimal.{
  decimal, number, is_safe, trim, trim_start, AreDigits, AreDigits-decimal, number-decimal,
  length-decimal, decimal-cons, span_digits-end, span_digits-append, trim_end-plain,
}
use z_s_app.Delivery.Range.{
  parsed, up_to, from_start, bounds, range_groups, with_bounds, with_groups, closed, groups_from,
  parse_single_byte_range,
}

-- printed characters of ASCII, less the comma
abbrev is_plain : ℕ → Bool
is_plain c = leb 33 c && (leb c 126 && not (nat_beq c b','))

plain-digits : (s : List ℕ) → AreDigits s → every is_plain s ≡ true
plain-digits [] h = refl
plain-digits (c ∷ s) h = let rest = plain-digits s (ground arith) in ground arith

plain-append :
    (s t : List ℕ)
    → every is_plain s ≡ true
    → every is_plain t ≡ true
    → every is_plain (s ++ t) ≡ true
plain-append [] t h k = k
plain-append (c ∷ s) t h k = let rest = plain-append s t (ground arith) k in ground arith

plain-commas : (s : List ℕ) → every is_plain s ≡ true → any (λ c. nat_beq c b',') s ≡ false
plain-commas [] h = refl
plain-commas (c ∷ s) h = let rest = plain-commas s (ground arith) in ground arith

plain-spaces : (s : List ℕ) → every is_plain s ≡ true → every (λ c. not (is_space c)) s ≡ true
unfolding is_space
plain-spaces [] h = refl
plain-spaces (c ∷ s) h = let rest = plain-spaces s (ground arith) in ground arith

utf16_length-plain : (s : List ℕ) → every is_plain s ≡ true → utf16_length s ≡ length s
unfolding utf16_length
utf16_length-plain [] h = refl
utf16_length-plain (c ∷ s) h = let rest = utf16_length-plain s (ground arith) in ground arith

abbrev printed : ℕ → ℕ → List ℕ
printed start end = codes "bytes=" ++ decimal start ++ b'-' ∷ decimal end

printed-plain : (start end : ℕ) → every is_plain (printed start end) ≡ true
printed-plain start end =
    let last = plain-digits (decimal end) (AreDigits-decimal end) in
    let dashed : every is_plain (b'-' ∷ decimal end) ≡ true = ground arith in
    plain-append (codes "bytes=") (decimal start ++ b'-' ∷ decimal end) (ground arith) (
      plain-append (decimal start) (b'-' ∷ decimal end)
        (plain-digits (decimal start) (AreDigits-decimal start)) dashed)

length-printed :
    (start end : ℕ)
    → is_safe start ≡ true
    → is_safe end ≡ true
    → ltb 128 (length (printed start end)) ≡ false
length-printed start end h k =
    let first = length-decimal start h in
    let last = length-decimal end k in
    let both = length-append (decimal start) (b'-' ∷ decimal end) in ground arith

trim-printed : (start end : ℕ) → trim (printed start end) ≡ printed start end
unfolding trim_start is_space
trim-printed start end =
    trim_end-plain (printed start end) (plain-spaces (printed start end) (printed-plain start end))

range_groups-printed :
    (start end : ℕ) → range_groups (printed start end) ≡ some (decimal start, decimal end)
unfolding range_groups
range_groups-printed start end =
    ap groups_from (
      span_digits-append (decimal start) b'-' (decimal end) (AreDigits-decimal start)
        (ground arith))
    ∙ ap (closed (decimal start)) (span_digits-end (decimal end) (AreDigits-decimal end))

from_start-ok :
    (start end total d : ℕ) (s : List ℕ)
    → number (d ∷ s) ≡ end
    → start ≤ end
    → end < total
    → is_safe total ≡ true
    → from_start start (d ∷ s) total ≡ ok (start, end)
from_start-ok start end total d s same h k safe =
    let in_object : (not (is_safe start) || leb total start) ≡ false = ground arith in
    let ordered : (not (is_safe end) || ltb end start) ≡ false = ground arith in
    let before_end : leb end (total - 1) ≡ true = ground arith in
    if-of_false _ _ in_object
    ∙ ap (λ n. up_to start n total) same
    ∙ if-of_false _ _ ordered
    ∙ ap (λ n. ok (start, n)) (if-of_true _ _ before_end)

bounds-printed :
    (start end total : ℕ)
    → start ≤ end
    → end < total
    → is_safe total ≡ true
    → bounds (decimal start) (decimal end) total ≡ ok (start, end)
unfolding bounds
bounds-printed start end total h k safe =
    let (d, (s, first)) = decimal-cons start in
    let (d', (s', last)) = decimal-cons end in
    ap (λ l. bounds l (decimal end) total) first
    ∙ ap (λ n. from_start n (decimal end) total) (sym (ap number first) ∙ number-decimal start)
    ∙ ap (λ r. from_start start r total) last
    ∙ from_start-ok start end total d' s' (sym (ap number last) ∙ number-decimal end) h k safe

-- A range from `start` to `end` in an object whose length is a safe integer, as it is printed for the
-- provider, is read back as the same range.
pub parse_single_byte_range-printed :
    (start end total : ℕ)
    → start ≤ end
    → end < total
    → is_safe total ≡ true
    → parse_single_byte_range (parsed start end total).provider_range total
      ≡ ok (parsed start end total)
unfolding parse_single_byte_range parsed
parse_single_byte_range-printed start end total h k safe =
    let plain = printed-plain start end in
    let commas = plain-commas (printed start end) plain in
    let units = utf16_length-plain (printed start end) plain in
    let short = length-printed start end (ground arith) (ground arith) in
    let allowed : (not (is_safe total) || leb total 0) ≡ false = ground arith in
    let readable : (ltb 128 (utf16_length (printed start end))
          || any (λ c. nat_beq c b',') (printed start end))
        ≡ false =
      ap (λ n. ltb 128 n || any (λ c. nat_beq c b',') (printed start end)) units
      ∙ ap (λ b. b || any (λ c. nat_beq c b',') (printed start end)) short
      ∙ commas in
    if-of_false _ _ allowed
    ∙ if-of_false _ _ readable
    ∙ ap (λ s. with_groups total (range_groups s)) (trim-printed start end)
    ∙ ap (with_groups total) (range_groups-printed start end)
    ∙ ap (with_bounds total) (bounds-printed start end total h k safe)
