-- ===== src/Delivery/Decimal.antt =====
-- src/runtime-read-delivery.ts: numbers as decimal text, as `String(n)`, `\d*` and `Number(text)` have
-- them. A text is its list of code points.
use z_s_app.Prelude.{
  if-of_true, if-of_false, &&-true, ℕ, zero, suc, ◌+◌, ◌-◌, ◌*◌, ◌/◌, ◌%◌, ◌≤◌, ◌<◌, ◌≡◌, refl, sym,
  ap, subst, ◌∙◌, Bool, true, false, not, ◌&&◌, List, [], ◌∷◌, ◌++◌, length, length-append, ltb,
  leb, every, if◌then◌else◌, arith, Bool-cases, inl, inr,
}
use z_s_app.Config.Text.{is_digit, is_space}

-- `fuel` is more than the number of digits.
unfoldable pub decimal_from : ℕ → ℕ → List ℕ
decimal_from zero n = []
decimal_from (suc fuel) n =
    let higher = decimal_from fuel (n / 10) in
    if ltb n 10 then (b'0' + n) ∷ [] else higher ++ (b'0' + n % 10) ∷ []

unfoldable pub decimal : ℕ → List ℕ
unfolding decimal_from
decimal n = decimal_from (suc n) n

unfoldable pub number_from : ℕ → List ℕ → ℕ
number_from read [] = read
number_from read (d ∷ s) = number_from (read * 10 + (d - b'0')) s

unfoldable pub number : List ℕ → ℕ
unfolding number_from
number s = number_from 0 s

-- the digits at the start of a text, and what is left
unfoldable pub span_digits : List ℕ → List ℕ × List ℕ
span_digits [] = ([], [])
span_digits (c ∷ s) = let r = span_digits s in if is_digit c then (c ∷ r.0, r.1) else ([], c ∷ s)

-- Number.isSafeInteger
abbrev pub is_safe : ℕ → Bool
is_safe n = leb n 9007199254740991

-- a point before the text that is left of what follows it
abbrev pub before_trimmed : ℕ → List ℕ → List ℕ
before_trimmed c [] = if is_space c then [] else c ∷ []
before_trimmed c (d ∷ s) = c ∷ d ∷ s

unfoldable pub trim_end : List ℕ → List ℕ
trim_end [] = []
trim_end (c ∷ s) = before_trimmed c (trim_end s)

unfoldable pub trim_start : List ℕ → List ℕ
trim_start [] = []
trim_start (c ∷ s) = let rest = trim_start s in if is_space c then rest else c ∷ s

abbrev pub trim : List ℕ → List ℕ
trim s = trim_end (trim_start s)

number_from-append :
    (read : ℕ) (s : List ℕ) (d : ℕ)
    → number_from read (s ++ d ∷ []) ≡ number_from read s * 10 + (d - b'0')
unfolding number_from
number_from-append read [] d = refl
number_from-append read (c ∷ s) d = number_from-append (read * 10 + (c - b'0')) s d

number-decimal_from : (fuel n : ℕ) → n < fuel → number_from 0 (decimal_from fuel n) ≡ n
unfolding decimal_from number_from
number-decimal_from zero n h = omega arith
number-decimal_from (suc fuel) n h = elim (Bool-cases (ltb n 10)) [
  | inl few ↦ ap (number_from 0) (if-of_true _ _ few) ∙ omega arith
  | inr many ↦
      ap (number_from 0) (if-of_false _ _ many)
      ∙ number_from-append 0 (decimal_from fuel (n / 10)) (b'0' + n % 10)
      ∙ ap (λ higher. higher * 10 + ((b'0' + n % 10) - b'0'))
          (number-decimal_from fuel (n / 10) (ground arith))
      ∙ omega arith
]

-- the number ten to the power
abbrev power_of_ten : ℕ → ℕ
power_of_ten zero = 1
power_of_ten (suc k) = 10 * power_of_ten k

length-decimal_from :
    (k fuel n : ℕ) → n < power_of_ten (suc k) → length (decimal_from fuel n) ≤ suc k
unfolding decimal_from
length-decimal_from k zero n h = omega arith
length-decimal_from zero (suc fuel) n h =
    let few : ltb n 10 ≡ true = ground arith in
    subst (λ s. length s ≤ 1) (sym (if-of_true ((b'0' + n) ∷ []) _ few)) (omega arith)
length-decimal_from (suc k) (suc fuel) n h = elim (Bool-cases (ltb n 10)) [
  | inl few ↦
      subst (λ s. length s ≤ suc (suc k)) (sym (if-of_true ((b'0' + n) ∷ []) _ few)) (omega arith)
  | inr many ↦
      let higher = decimal_from fuel (n / 10) in
      let shorter = length-decimal_from k fuel (n / 10) (omega arith) in
      let all = length-append higher ((b'0' + n % 10) ∷ []) in
      let same : length (decimal_from (suc fuel) n) ≡ length (higher ++ (b'0' + n % 10) ∷ []) =
        ap length (if-of_false ((b'0' + n) ∷ []) (higher ++ (b'0' + n % 10) ∷ []) many) in
      omega arith
]

pub number-decimal : (n : ℕ) → number (decimal n) ≡ n
unfolding number decimal
number-decimal n = number-decimal_from (suc n) n (omega arith)

-- A number that is read exactly has at most sixteen digits.
pub length-decimal : (n : ℕ) → is_safe n ≡ true → length (decimal n) ≤ 16
unfolding decimal
length-decimal n h = length-decimal_from 15 (suc n) n (ground arith)

-- the texts of digits only
abbrev pub AreDigits : List ℕ → Type 0
AreDigits s = every is_digit s ≡ true

AreDigits-append : (s : List ℕ) (d : ℕ) → AreDigits s → is_digit d ≡ true → AreDigits (s ++ d ∷ [])
AreDigits-append [] d h k = ground arith
AreDigits-append (c ∷ s) d h k =
    let both = &&-true (is_digit c) (every is_digit s) h in
    let rest = AreDigits-append s d both.1 k in
    ap (λ b. b && every is_digit (s ++ d ∷ [])) both.0 ∙ rest

AreDigits-decimal_from : (fuel n : ℕ) → AreDigits (decimal_from fuel n)
unfolding decimal_from
AreDigits-decimal_from zero n = refl
AreDigits-decimal_from (suc fuel) n = elim (Bool-cases (ltb n 10)) [
  | inl few ↦ subst AreDigits (sym (if-of_true _ _ few)) (ground arith)
  | inr many ↦ subst AreDigits (sym (if-of_false _ _ many)) (
      AreDigits-append (decimal_from fuel (n / 10)) (b'0' + n % 10)
        (AreDigits-decimal_from fuel (n / 10)) (ground arith))
]

pub AreDigits-decimal : (n : ℕ) → AreDigits (decimal n)
unfolding decimal
AreDigits-decimal n = AreDigits-decimal_from (suc n) n

IsStarted : List ℕ → Type 0
IsStarted s = (d : ℕ) × ((t : List ℕ) × (s ≡ d ∷ t))

append-IsStarted : (s : List ℕ) (d : ℕ) → IsStarted (s ++ d ∷ [])
unfolding IsStarted
append-IsStarted [] d = (d, ([], refl))
append-IsStarted (c ∷ s) d = (c, (s ++ d ∷ [], refl))

-- A number has a first digit.
pub decimal-cons : (n : ℕ) → (d : ℕ) × ((s : List ℕ) × (decimal n ≡ d ∷ s))
unfolding decimal decimal_from IsStarted
decimal-cons n = elim (Bool-cases (ltb n 10)) [
  | inl few ↦ subst IsStarted (sym (if-of_true _ _ few)) (b'0' + n, ([], refl))
  | inr many ↦ subst IsStarted (sym (if-of_false _ _ many)) (append-IsStarted _ _)
]

pub span_digits-end : (s : List ℕ) → AreDigits s → span_digits s ≡ (s, [])
unfolding span_digits
span_digits-end [] h = refl
span_digits-end (c ∷ s) h =
    let both = &&-true (is_digit c) (every is_digit s) h in
    if-of_true _ _ both.0 ∙ ap (λ r. (c ∷ r.0, r.1)) (span_digits-end s both.1)

pub span_digits-append :
    (s : List ℕ) (c : ℕ) (rest : List ℕ)
    → AreDigits s
    → is_digit c ≡ false
    → span_digits (s ++ c ∷ rest) ≡ (s, c ∷ rest)
unfolding span_digits
span_digits-append [] c rest h k = if-of_false _ _ k
span_digits-append (d ∷ s) c rest h k =
    let both = &&-true (is_digit d) (every is_digit s) h in
    if-of_true _ _ both.0 ∙ ap (λ r. (d ∷ r.0, r.1)) (span_digits-append s c rest both.1 k)

-- Nothing is trimmed from a text without spaces.
pub trim_end-plain : (s : List ℕ) → every (λ c. not (is_space c)) s ≡ true → trim_end s ≡ s
unfolding trim_end
trim_end-plain [] h = refl
trim_end-plain (c ∷ []) h = if-of_false {b = is_space c} _ _ (ground arith)
trim_end-plain (c ∷ d ∷ s) h = ap (before_trimmed c) (trim_end-plain (d ∷ s) (ground arith))
