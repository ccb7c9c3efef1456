-- ===== src/Media/Png.antt =====
-- src/runtime-media-verification.ts: the signature, the header and the whole of the bytes
-- that `verifyPng` accepts.
use z_s_app.Prelude.{
  Bool-cases, if-of_true, if-of_false, some_same, ℕ, zero, suc, ◌*◌, ◌≤◌, ◌<◌, ◌≡◌, refl, sym,
  subst, ◌∙◌, false, not, ◌||◌, Option, none, some, List, [], ◌∷◌, ◌++◌, length, every, ltb, leb,
  nat_beq, nat_beq_iff, arith, inl, inr, Result, ok, Yields, Yields-ok, Yields-err, Yields-bind,
  Yields-unless, Yields-if, Yields-weaken,
}
use z_s_app.Prefix.{codes_beq, codes_beq_iff}
use z_s_app.Media.{
  MediaVerificationErrorCode, png_signature, after_bytes, u32, PngChunk, read_chunk, is_letter,
  has_type, header_type, end_type, check_size, size_in, size_after, after_chunk, png_chunks,
  png_after_signature, verify_png,
}
use z_s_app.Media.Chunks.{IsChunk, AreLater, read_chunk-IsChunk, Later, png_chunks-Later}

-- An image of that size, with at most `max` pixels: the signature, a header chunk with the size in its
-- first eight of 13 bytes, and the later chunks.
pub record IsPng (max : ℕ) (size : ℕ × ℕ) (bytes : List ℕ) : Type 0 where
  pub header : PngChunk
  pub rest : List ℕ
  pub after_signature : List ℕ
  pub signed : bytes ≡ png_signature ++ after_signature
  pub chunk : IsChunk after_signature header rest
  pub header_typed : header.type_code ≡ header_type
  pub header_length : length header.data_bytes ≡ 13
  pub sized : size_in max header.data_bytes ≡ ok size
  pub wide : 0 < size.0
  pub high : 0 < size.1
  pub bounded : size.0 * size.1 ≤ max
  pub later : AreLater rest

abbrev InBounds : ℕ → ℕ × ℕ → Type 0
InBounds max size = (0 < size.0) × ((0 < size.1) × (size.0 * size.1 ≤ max))

check_size-InBounds : (max w h : ℕ) → Yields (check_size max w h) (InBounds max)
check_size-InBounds max w h = Yields-unless (leb w 0 || leb h 0) _ (λ positive.
    Yields-unless (ltb max (w * h)) _
      (λ few. Yields-ok (w, h) (ground arith, (ground arith, ground arith))))

size_in-InBounds : (max : ℕ) (l : List ℕ) → Yields (size_in max l) (InBounds max)
size_in-InBounds max (a ∷ b ∷ c ∷ d ∷ e ∷ f ∷ g ∷ h ∷ s) =
    check_size-InBounds max (u32 a b c d) (u32 e f g h)
size_in-InBounds max [] = Yields-err _
size_in-InBounds max (a ∷ []) = Yields-err _
size_in-InBounds max (a ∷ b ∷ []) = Yields-err _
size_in-InBounds max (a ∷ b ∷ c ∷ []) = Yields-err _
size_in-InBounds max (a ∷ b ∷ c ∷ d ∷ []) = Yields-err _
size_in-InBounds max (a ∷ b ∷ c ∷ d ∷ e ∷ []) = Yields-err _
size_in-InBounds max (a ∷ b ∷ c ∷ d ∷ e ∷ f ∷ []) = Yields-err _
size_in-InBounds max (a ∷ b ∷ c ∷ d ∷ e ∷ f ∷ g ∷ []) = Yields-err _

header_no_end : (c : PngChunk) → c.type_code ≡ header_type → has_type end_type c ≡ false
header_no_end c h = subst (λ t. codes_beq end_type t ≡ false) (sym h) refl

none_or_some : {s : List ℕ} → none ≡ some s → ⊥
none_or_some h = grind arith

after_bytes-some : (p s r : List ℕ) → after_bytes p s ≡ some r → s ≡ p ++ r
after_bytes-some [] s r h = some_same s r h
after_bytes-some (c ∷ p) [] r h = grind arith
after_bytes-some (c ∷ p) (b ∷ s) r h = elim (Bool-cases (nat_beq c b)) [
  | inl same ↦
      let rest = after_bytes-some p s r (sym (if-of_true _ _ same) ∙ h) in
      let first = (nat_beq_iff c b).0 same in cc
  | inr differs ↦ absurd (none_or_some (sym (if-of_false (after_bytes p s) none differs) ∙ h))
]

module _ (max : ℕ) (bytes : List ℕ) where
  abbrev IsHeader : PngChunk → ℕ × ℕ → Type 0
  IsHeader c size =
      (c.type_code ≡ header_type)
      × ((length c.data_bytes ≡ 13) × ((size_in max c.data_bytes ≡ ok size) × InBounds max size))

  size_after-IsHeader : (c : PngChunk) → Yields (size_after max none c) (IsHeader c)
  size_after-IsHeader c =
      Yields-unless (not (has_type header_type c) || not (nat_beq (length c.data_bytes) 13)) _ (λ h.
        record {
          apply = λ size same. (
            sym ((codes_beq_iff header_type c.type_code).0 (ground (arith, h))),
            (ground (arith, h), (same, (size_in-InBounds max c.data_bytes).apply size same)),
          );
        })

  after_chunk-IsPng :
      (later : Option (ℕ × ℕ) → List ℕ → Result MediaVerificationErrorCode (ℕ × ℕ)) (s : List ℕ)
      (o : Option (PngChunk × List ℕ))
      → bytes ≡ png_signature ++ s
      → read_chunk s ≡ o
      → ((size : ℕ × ℕ) (rest : List ℕ) → Yields (later (some size) rest) (Later max size rest))
      → Yields (after_chunk max later none o) (λ size. IsPng max size bytes)
  unfolding Later
  after_chunk-IsPng later s none signed e h = Yields-err _
  after_chunk-IsPng later s (some (c, rest)) signed e h =
      Yields-unless (not (every is_letter c.type_code)) _ (λ letters.
        Yields-bind (size_after-IsHeader c) (λ size p.
          Yields-if (has_type end_type c) (λ last. absurd (grind (arith, header_no_end c p.0)))
            (λ more. Yields-weaken (h size rest) (λ r q.
              subst (λ t. IsPng max t bytes) (sym q.0)
                (record {
                  header = c;
                  rest = rest;
                  after_signature = s;
                  signed = signed;
                  chunk = read_chunk-IsChunk s c rest e;
                  header_typed = p.0;
                  header_length = p.1.0;
                  sized = p.1.1.0;
                  wide = p.1.1.1.0;
                  high = p.1.1.1.1.0;
                  bounded = p.1.1.1.1.1;
                  later = q.1;
                })))))

  png_chunks-IsPng :
      (left : ℕ) (s : List ℕ)
      → bytes ≡ png_signature ++ s
      → Yields (png_chunks max left none s) (λ size. IsPng max size bytes)
  unfolding png_chunks
  png_chunks-IsPng left [] signed = Yields-err _
  png_chunks-IsPng zero (b ∷ s) signed = Yields-err _
  png_chunks-IsPng (suc left) (b ∷ s) signed =
      after_chunk-IsPng (png_chunks max left) (b ∷ s) (read_chunk (b ∷ s)) signed refl
        (png_chunks-Later max left)

  png_after_signature-IsPng :
      (o : Option (List ℕ))
      → after_bytes png_signature bytes ≡ o
      → Yields (png_after_signature max o) (λ size. IsPng max size bytes)
  png_after_signature-IsPng none e = Yields-err _
  png_after_signature-IsPng (some s) e =
      png_chunks-IsPng 4096 s (after_bytes-some png_signature bytes s e)

  -- Bytes that are accepted as a PNG image are the signature, a header chunk of 13 bytes that gives a
  -- width and a height above 0 with at most the allowed number of pixels, and then chunks that are no
  -- headers up to an empty `IEND` chunk, with which the bytes end. Each chunk has the length that it
  -- states.
  pub verify_png-IsPng : (size : ℕ × ℕ) → verify_png max bytes ≡ ok size → IsPng max size bytes
  unfolding verify_png
  verify_png-IsPng size same = (png_after_signature-IsPng _ refl).apply size same
