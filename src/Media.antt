-- ===== src/Media.antt =====
-- src/runtime-media-verification.ts: `verifyPng`, over the list of the bytes. What is left of it stands
-- for the offset.
pub mod Chunks
pub mod Png
use z_s_app.Prelude.{
  ℕ, zero, suc, ◌+◌, ◌*◌, Bool, true, false, not, ◌&&◌, ◌||◌, Option, none, some, List, [], ◌∷◌,
  length, every, ltb, leb, nat_beq, if◌then◌else◌, codes, Result, ok, err, ◌>>=◌,
}
use z_s_app.Config.Text.{between}
use z_s_app.Prefix.{codes_beq}

pub data MediaVerificationErrorCode : Type 0 where
  media_source_invalid media_source_too_large media_type_unsupported : MediaVerificationErrorCode
  media_type_mismatch png_malformed png_dimensions_invalid : MediaVerificationErrorCode
  png_pixel_limit_exceeded mp4_malformed mp4_container_unsupported : MediaVerificationErrorCode
  mp4_timing_missing mp4_duration_invalid mp4_traversal_limit_exceeded : MediaVerificationErrorCode

abbrev pub png_signature : List ℕ
png_signature = 137 ∷ 80 ∷ 78 ∷ 71 ∷ 13 ∷ 10 ∷ 26 ∷ 10 ∷ []

-- what follows the expected bytes, if a text starts with them
abbrev pub after_bytes : List ℕ → List ℕ → Option (List ℕ)
after_bytes [] s = some s
after_bytes (p ∷ ps) [] = none
after_bytes (p ∷ ps) (b ∷ s) = if nat_beq p b then after_bytes ps s else none

abbrev pub u32 : ℕ → ℕ → ℕ → ℕ → ℕ
u32 a b c d = a * 0x1000000 + b * 0x10000 + c * 0x100 + d

pub record PngChunk : Type 0 where
  pub type_code : List ℕ
  pub data_bytes : List ℕ

abbrev pub before_split : ℕ → Option (List ℕ × List ℕ) → Option (List ℕ × List ℕ)
before_split b none = none
before_split b (some (first, rest)) = some (b ∷ first, rest)

-- the next `n` bytes, and what follows them
unfoldable pub split_bytes : ℕ → List ℕ → Option (List ℕ × List ℕ)
split_bytes zero s = some ([], s)
split_bytes (suc n) [] = none
split_bytes (suc n) (b ∷ s) = before_split b (split_bytes n s)

-- the four bytes of the checksum are passed over
abbrev pub chunk_of : List ℕ → Option (List ℕ × List ℕ) → Option (PngChunk × List ℕ)
chunk_of type_code (some (data_bytes, a ∷ b ∷ c ∷ d ∷ rest)) =
    some (record { type_code = type_code; data_bytes = data_bytes }, rest)
chunk_of type_code _ = none

-- a length, a type, as many bytes, and a checksum
unfoldable pub read_chunk : List ℕ → Option (PngChunk × List ℕ)
unfolding split_bytes
read_chunk (a ∷ b ∷ c ∷ d ∷ t ∷ u ∷ v ∷ w ∷ s) =
    chunk_of (t ∷ u ∷ v ∷ w ∷ []) (split_bytes (u32 a b c d) s)
read_chunk _ = none

abbrev pub is_letter : ℕ → Bool
is_letter c = between b'A' b'Z' c || between b'a' b'z' c

abbrev pub has_type : List ℕ → PngChunk → Bool
has_type type_code c = codes_beq type_code c.type_code

abbrev pub header_type : List ℕ
header_type = b'I' ∷ b'H' ∷ b'D' ∷ b'R' ∷ []

abbrev pub end_type : List ℕ
end_type = b'I' ∷ b'E' ∷ b'N' ∷ b'D' ∷ []

abbrev pub malformed : Result MediaVerificationErrorCode (ℕ × ℕ)
malformed = err png_malformed

abbrev pub is_nil : List ℕ → Bool
is_nil [] = true
is_nil (b ∷ s) = false

module _ (maximum_image_pixels : ℕ) where
  abbrev pub check_size : ℕ → ℕ → Result MediaVerificationErrorCode (ℕ × ℕ)
  check_size width height =
      if leb width 0 || leb height 0
      then err png_dimensions_invalid
      else if ltb maximum_image_pixels (width * height)
      then err png_pixel_limit_exceeded
      else ok (width, height)

  abbrev pub size_in : List ℕ → Result MediaVerificationErrorCode (ℕ × ℕ)
  size_in (a ∷ b ∷ c ∷ d ∷ e ∷ f ∷ g ∷ h ∷ s) = check_size (u32 a b c d) (u32 e f g h)
  size_in _ = malformed

  -- the first chunk gives the size; no later one may be a header
  abbrev pub size_after : Option (ℕ × ℕ) → PngChunk → Result MediaVerificationErrorCode (ℕ × ℕ)
  size_after none c =
      if not (has_type header_type c) || not (nat_beq (length c.data_bytes) 13)
      then malformed
      else size_in c.data_bytes
  size_after (some size) c = if has_type header_type c then malformed else ok size

  abbrev pub end_or_later :
      (Option (ℕ × ℕ) → List ℕ → Result MediaVerificationErrorCode (ℕ × ℕ))
      → PngChunk
      → List ℕ
      → ℕ × ℕ
      → Result MediaVerificationErrorCode (ℕ × ℕ)
  end_or_later later c rest size =
      if has_type end_type c
      then if not (is_nil c.data_bytes) || not (is_nil rest) then malformed else ok size
      else later (some size) rest

  abbrev pub after_chunk :
      (Option (ℕ × ℕ) → List ℕ → Result MediaVerificationErrorCode (ℕ × ℕ))
      → Option (ℕ × ℕ)
      → Option (PngChunk × List ℕ)
      → Result MediaVerificationErrorCode (ℕ × ℕ)
  after_chunk later size none = malformed
  after_chunk later size (some (c, rest)) =
      if not (every is_letter c.type_code)
      then malformed
      else size_after size c >>= end_or_later later c rest

  -- the loop; `left` more chunks may be read
  unfoldable pub png_chunks :
      ℕ → Option (ℕ × ℕ) → List ℕ → Result MediaVerificationErrorCode (ℕ × ℕ)
  unfolding read_chunk
  png_chunks left size [] = malformed
  png_chunks zero size (b ∷ s) = malformed
  png_chunks (suc left) size (b ∷ s) = after_chunk (png_chunks left) size (read_chunk (b ∷ s))

  abbrev pub png_after_signature : Option (List ℕ) → Result MediaVerificationErrorCode (ℕ × ℕ)
  png_after_signature none = malformed
  png_after_signature (some s) = png_chunks 4096 none s

  unfoldable pub verify_png : List ℕ → Result MediaVerificationErrorCode (ℕ × ℕ)
  unfolding png_chunks
  verify_png bytes = png_after_signature (after_bytes png_signature bytes)
