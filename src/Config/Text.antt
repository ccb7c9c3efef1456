-- ===== src/Config/Text.antt =====
-- src/client-storage-configuration.ts: the tests on texts, over code points.
use z_s_app.Prelude.{
  ℕ, ◌+◌, String, Bool, true, false, ◌&&◌, ◌||◌, not, List, [], ◌∷◌, ◌++◌, ltb, leb, nat_beq, every,
  any, length, codes, if◌then◌else◌,
}
use z_s_app.Prefix.{starts_with, codes_beq}

-- `text.length`: a code point above the basic plane takes two units.
unfoldable pub utf16_length : List ℕ → ℕ
utf16_length [] = 0
utf16_length (c ∷ s) = (if ltb c 0x10000 then 1 else 2) + utf16_length s

abbrev pub between : ℕ → ℕ → ℕ → Bool
between lo hi c = leb lo c && leb c hi

-- what `trim` and `\s` take for white space
unfoldable pub is_space : ℕ → Bool
is_space c =
    between 9 13 c
    || nat_beq c 32
    || nat_beq c 160
    || nat_beq c 0x1680
    || between 0x2000 0x200a c
    || between 0x2028 0x2029 c
    || nat_beq c 0x202f
    || nat_beq c 0x205f
    || nat_beq c 0x3000
    || nat_beq c 0xfeff

abbrev pub is_digit : ℕ → Bool
is_digit c = between b'0' b'9' c

abbrev pub is_lower : ℕ → Bool
is_lower c = between b'a' b'z' c

abbrev is_upper : ℕ → Bool
is_upper c = between b'A' b'Z' c

abbrev is_mark : ℕ → Bool
is_mark c = nat_beq c b'.' || nat_beq c b'_' || nat_beq c b':' || nat_beq c b'-'

-- `[first][rest]{0,most}` from the start of a text to its end
abbrev pub matches_token : (ℕ → Bool) → (ℕ → Bool) → ℕ → List ℕ → Bool
matches_token first rest most [] = false
matches_token first rest most (c ∷ s) = first c && (every rest s && leb (length s) most)

-- IDENTIFIER_PATTERN
unfoldable pub is_identifier : String → Bool
is_identifier text =
    matches_token (λ c. is_lower c || is_digit c) (λ c. is_lower c || is_digit c || is_mark c) 127
      (codes text)

-- SECRET_REFERENCE_PATTERN
unfoldable pub is_secret_reference : String → Bool
is_secret_reference text =
    matches_token (λ c. is_upper c || is_lower c || is_digit c)
      (λ c. is_upper c || is_lower c || is_digit c || is_mark c) 255 (codes text)

-- `value.trim().length < 1 || value.length > 160`, negated
unfoldable pub is_label : String → Bool
unfolding utf16_length is_space
is_label text = not (every is_space (codes text)) && leb (utf16_length (codes text)) 160

-- the character of a pattern: a letter in either case, or `.?`
pub data Piece : Type 0 where
  letter : ℕ → Piece
  any_one : Piece

abbrev lower : ℕ → ℕ
lower c = if is_upper c then c + 32 else c

abbrev ends_line : ℕ → Bool
ends_line c = nat_beq c 10 || nat_beq c 13 || nat_beq c 0x2028 || nat_beq c 0x2029

-- `.` matches one UTF-16 unit that ends no line; a code point above 0xFFFF is two units.
abbrev is_one_unit : ℕ → Bool
is_one_unit c = not (ends_line c) && ltb c 0x10000

-- the pattern at the start of a text
matches_here : List Piece → List ℕ → Bool
matches_here [] s = true
matches_here (letter c ∷ p) [] = false
matches_here (letter c ∷ p) (d ∷ s) = nat_beq (lower d) c && matches_here p s
matches_here (any_one ∷ p) [] = matches_here p []
matches_here (any_one ∷ p) (d ∷ s) = matches_here p (d ∷ s) || (is_one_unit d && matches_here p s)

found_in : List Piece → List ℕ → Bool
found_in p [] = matches_here p []
found_in p (d ∷ s) = matches_here p (d ∷ s) || found_in p s

letters : List ℕ → List Piece
letters [] = []
letters (c ∷ s) = letter c ∷ letters s

-- two words with any one character, or none, between them
gapped : String → String → List Piece
gapped a b = letters (codes a) ++ any_one ∷ letters (codes b)

-- SAFE_METADATA_PROHIBITED_KEY
unfoldable pub is_prohibited_key : String → Bool
unfolding found_in matches_here letters gapped
is_prohibited_key key =
    any (λ p. found_in p (codes key))
      (letters (codes "credential")
        ∷ letters (codes "secret")
        ∷ letters (codes "password")
        ∷ letters (codes "token")
        ∷ letters (codes "endpoint")
        ∷ gapped "access" "key"
        ∷ gapped "private" "key"
        ∷ gapped "connection" "string"
        ∷ gapped "signed" "url"
        ∷ [])

-- `text.includes(part)` and `text.endsWith(part)`
unfoldable pub includes_text : List ℕ → List ℕ → Bool
includes_text part [] = starts_with part []
includes_text part (c ∷ s) = starts_with part (c ∷ s) || includes_text part s

pub ends_with_text : List ℕ → List ℕ → Bool
ends_with_text part [] = codes_beq part []
ends_with_text part (c ∷ s) = codes_beq part (c ∷ s) || ends_with_text part s

-- the form of a prefix template
unfoldable pub is_prefix_template : String → Bool
unfolding includes_text ends_with_text
is_prefix_template template =
    let s = codes template in
    ends_with_text (b'/' ∷ b'*' ∷ []) s
    && not (starts_with (b'/' ∷ []) s)
    && not (includes_text (b'.' ∷ b'.' ∷ []) s)
    && not (includes_text (92 ∷ []) s)
