-- ===== src/Media/Chunks.antt =====
-- src/runtime-media-verification.ts: what a chunk is, and the chunks after the header.
use z_s_app.Prelude.{
  some_same, ℕ, zero, suc, ◌≡◌, refl, sym, ap, subst, ◌∙◌, true, false, not, ◌||◌, Option, none,
  some, List, [], ◌∷◌, ◌++◌, length, every, arith, Result, Yields, Yields-ok, Yields-err,
  Yields-bind, Yields-unless, Yields-if, Yields-weaken,
}
use z_s_app.Prefix.{codes_beq_iff}
use z_s_app.Media.{
  MediaVerificationErrorCode, u32, PngChunk, before_split, split_bytes, chunk_of, read_chunk,
  is_letter, has_type, header_type, end_type, is_nil, after_chunk, png_chunks,
}

-- The bytes are a chunk, with its length before and its checksum behind, and what is left.
pub record IsChunk (s : List ℕ) (c : PngChunk) (rest : List ℕ) : Type 0 where
  pub size : ℕ × ℕ × ℕ × ℕ
  pub checksum : ℕ × ℕ × ℕ × ℕ
  pub laid_out :
      s
      ≡ size.0 ∷ size.1 ∷ size.2 ∷ size.3 ∷ c.type_code
        ++ c.data_bytes
        ++ checksum.0 ∷ checksum.1 ∷ checksum.2 ∷ checksum.3 ∷ rest
  pub type_length : length c.type_code ≡ 4
  pub data_length : length c.data_bytes ≡ u32 size.0 size.1 size.2 size.3

-- Chunks that are no headers, up to an empty `IEND` chunk, which ends the bytes.
pub data AreLater : List ℕ → Type 0 where
  ended :
      {s : List ℕ} (c : PngChunk)
      → IsChunk s c []
      → c.type_code ≡ end_type
      → c.data_bytes ≡ []
      → AreLater s
  another :
      {s : List ℕ} (c : PngChunk) (rest : List ℕ)
      → IsChunk s c rest
      → has_type header_type c ≡ false
      → has_type end_type c ≡ false
      → AreLater rest
      → AreLater s

abbrev Splits : ℕ → List ℕ → Option (List ℕ × List ℕ) → Type 0
Splits n s none = Unit {0}
Splits n s (some (first, rest)) = (s ≡ first ++ rest) × (length first ≡ n)

before_split-Splits :
    (n b : ℕ) (s : List ℕ) (o : Option (List ℕ × List ℕ))
    → Splits n s o
    → Splits (suc n) (b ∷ s) (before_split b o)
before_split-Splits n b s none h = tt
before_split-Splits n b s (some (first, rest)) h = (ap (λ l. b ∷ l) h.0, ap suc h.1)

split_bytes-Splits : (n : ℕ) (s : List ℕ) → Splits n s (split_bytes n s)
unfolding split_bytes
split_bytes-Splits zero s = (refl, refl)
split_bytes-Splits (suc n) [] = tt
split_bytes-Splits (suc n) (b ∷ s) =
    before_split-Splits n b s (split_bytes n s) (split_bytes-Splits n s)

chunk_of-some :
    (a b c d t u v w : ℕ) (s : List ℕ) (o : Option (List ℕ × List ℕ)) (k : PngChunk) (rest : List ℕ)
    → split_bytes (u32 a b c d) s ≡ o
    → chunk_of (t ∷ u ∷ v ∷ w ∷ []) o ≡ some (k, rest)
    → IsChunk (a ∷ b ∷ c ∷ d ∷ t ∷ u ∷ v ∷ w ∷ s) k rest
chunk_of-some a b c d t u v w s none k rest e h = grind arith
chunk_of-some a b c d t u v w s (some (bytes, [])) k rest e h = grind arith
chunk_of-some a b c d t u v w s (some (bytes, x ∷ [])) k rest e h = grind arith
chunk_of-some a b c d t u v w s (some (bytes, x ∷ y ∷ [])) k rest e h = grind arith
chunk_of-some a b c d t u v w s (some (bytes, x ∷ y ∷ z ∷ [])) k rest e h = grind arith
chunk_of-some a b c d t u v w s (some (bytes, x ∷ y ∷ z ∷ q ∷ after)) k rest e h =
    let split = subst (Splits (u32 a b c d) s) e (split_bytes-Splits (u32 a b c d) s) in
    subst (λ p. IsChunk (a ∷ b ∷ c ∷ d ∷ t ∷ u ∷ v ∷ w ∷ s) p.0 p.1) (some_same _ _ h)
      (record {
        size = (a, b, c, d);
        checksum = (x, y, z, q);
        laid_out = ap (λ l. a ∷ b ∷ c ∷ d ∷ t ∷ u ∷ v ∷ w ∷ l) split.0;
        type_length = refl;
        data_length = split.1;
      })

pub read_chunk-IsChunk :
    (s : List ℕ) (k : PngChunk) (rest : List ℕ) → read_chunk s ≡ some (k, rest) → IsChunk s k rest
unfolding read_chunk
read_chunk-IsChunk [] k rest h = grind arith
read_chunk-IsChunk (a ∷ []) k rest h = grind arith
read_chunk-IsChunk (a ∷ b ∷ []) k rest h = grind arith
read_chunk-IsChunk (a ∷ b ∷ c ∷ []) k rest h = grind arith
read_chunk-IsChunk (a ∷ b ∷ c ∷ d ∷ []) k rest h = grind arith
read_chunk-IsChunk (a ∷ b ∷ c ∷ d ∷ t ∷ []) k rest h = grind arith
read_chunk-IsChunk (a ∷ b ∷ c ∷ d ∷ t ∷ u ∷ []) k rest h = grind arith
read_chunk-IsChunk (a ∷ b ∷ c ∷ d ∷ t ∷ u ∷ v ∷ []) k rest h = grind arith
read_chunk-IsChunk (a ∷ b ∷ c ∷ d ∷ t ∷ u ∷ v ∷ w ∷ s) k rest h =
    chunk_of-some a b c d t u v w s (split_bytes (u32 a b c d) s) k rest refl h

nil-of_test : (l : List ℕ) → is_nil l ≡ true → l ≡ []
nil-of_test [] h = refl
nil-of_test (b ∷ s) h = grind arith

module _ (max : ℕ) where
  unfoldable pub Later : (ℕ × ℕ) → List ℕ → ℕ × ℕ → Type 0
  Later size s r = (r ≡ size) × AreLater s

  -- what a chunk and the rest of the bytes give
  after_chunk-Later :
      (later : Option (ℕ × ℕ) → List ℕ → Result MediaVerificationErrorCode (ℕ × ℕ)) (size : ℕ × ℕ)
      (s : List ℕ) (o : Option (PngChunk × List ℕ))
      → read_chunk s ≡ o
      → ((size : ℕ × ℕ) (rest : List ℕ) → Yields (later (some size) rest) (Later size rest))
      → Yields (after_chunk max later (some size) o) (Later size s)
  unfolding Later
  after_chunk-Later later size s none e h = Yields-err _
  after_chunk-Later later size s (some (c, rest)) e h =
      let chunk = read_chunk-IsChunk s c rest e in
      Yields-unless (not (every is_letter c.type_code)) _ (λ letters.
        Yields-bind {P = λ r. (r ≡ size) × (has_type header_type c ≡ false)}
          (Yields-unless (has_type header_type c) _ (λ plain. Yields-ok size (refl, plain)))
          (λ size' p.
            Yields-if (has_type end_type c)
              (λ last. Yields-unless (not (is_nil c.data_bytes) || not (is_nil rest)) _ (λ empty.
                Yields-ok size' (
                  p.0,
                  ended c (subst (IsChunk s c) (nil-of_test rest (ground (arith, empty))) chunk)
                      (sym ((codes_beq_iff end_type c.type_code).0 last))
                      (nil-of_test c.data_bytes (ground (arith, empty))),
                )))
              (λ more.
                Yields-weaken (h size' rest)
                  (λ r q. (q.0 ∙ p.0, another c rest chunk p.1 more q.1)))))

  pub png_chunks-Later :
      (left : ℕ) (size : ℕ × ℕ) (s : List ℕ)
      → Yields (png_chunks max left (some size) s) (Later size s)
  unfolding png_chunks
  png_chunks-Later left size [] = Yields-err _
  png_chunks-Later zero size (b ∷ s) = Yields-err _
  png_chunks-Later (suc left) size (b ∷ s) =
      after_chunk-Later (png_chunks max left) size (b ∷ s) (read_chunk (b ∷ s)) refl
        (png_chunks-Later left)
