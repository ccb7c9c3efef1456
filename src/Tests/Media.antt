-- ===== src/Tests/Media.antt =====
-- src/runtime-media-verification.ts: an image of two by three pixels.
use z_s_app.Prelude.{ℕ, ◌≡◌, refl, List, [], ◌∷◌, ◌++◌, ok, err}
use z_s_app.Media.{
  png_signature, png_pixel_limit_exceeded, png_malformed, split_bytes, read_chunk, png_chunks,
  verify_png,
}
use z_s_app.Media.Png.{IsPng, verify_png-IsPng}

abbrev header : List ℕ
header =
    0 ∷ 0 ∷ 0 ∷ 13 ∷ b'I' ∷ b'H' ∷ b'D' ∷ b'R' ∷ 0 ∷ 0 ∷ 0 ∷ 2 ∷ 0 ∷ 0 ∷ 0 ∷ 3 ∷ 8 ∷ 2 ∷ 0 ∷ 0 ∷ 0
    ∷ 1 ∷ 2 ∷ 3 ∷ 4 ∷ []

abbrev trailer : List ℕ
trailer = 0 ∷ 0 ∷ 0 ∷ 0 ∷ b'I' ∷ b'E' ∷ b'N' ∷ b'D' ∷ 1 ∷ 2 ∷ 3 ∷ 4 ∷ []

abbrev image : List ℕ
image = png_signature ++ header ++ trailer

media : Unit {0}
unfolding split_bytes read_chunk png_chunks verify_png
media = tt

accepted : verify_png 6 image ≡ ok (2, 3)
unfolding media
accepted = refl

too_large : verify_png 5 image ≡ err png_pixel_limit_exceeded
unfolding media
too_large = refl

without_end : verify_png 6 (png_signature ++ header) ≡ err png_malformed
unfolding media
without_end = refl

verify_png-IsPng_example : IsPng 6 (2, 3) image
verify_png-IsPng_example = verify_png-IsPng 6 image (2, 3) accepted
