-- ===== src/Images/Settlement.antt =====
-- src/image-derivative.ts: how a run of the worker ends.
use z_s_app.Prelude.{
  ℕ, String, ◌≡◌, refl, ap, ◌∙◌, Bool, true, false, ◌||◌, not, List, [], ◌∷◌, ◌++◌, ◌==◌, eq_iff,
  string_eq, length, arith, ok, err,
}
use z_s_app.Config.Document.{JsNumber, natural, other, number_beq}
use z_s_app.Config.Validation.{in_range}
use z_s_app.Images.Errors.{ImageDerivativeError}
use z_s_app.Images.{
  ImageDerivativeJob, ImageDerivativeSource, ProcessedImageDerivative,
  VerifiedImageDerivativeOutput, Call, Run, Collaborators, ◌>>=◌, ◌>>◌, throw_if, assert_source,
  assert_processed, is_fine_output, within_pixels, is_sha256, work, maximum_source_bytes,
  maximum_output_bytes, minimum_width, maximum_width, minimum_quality, maximum_quality,
}

append_same : {A : Type 0} (a b c d : List A) → a ≡ c → b ≡ d → (a ++ b) ≡ (c ++ d)
append_same a b c d e f = ap (λ x. x ++ b) e ∙ ap (λ x. c ++ x) f

module _ {A B : Type 0} where
  -- What a run that returned did, in its two parts.
  bind-ok :
      (m : Run A) (next : A → Run B) (v : B)
      → (m >>= next).1 ≡ ok v
      → (a : A) × (m.1 ≡ ok a) × ((next a).1 ≡ ok v) × ((m >>= next).0 ≡ m.0 ++ (next a).0)
  unfolding ◌>>=◌
  bind-ok (calls, err e) next v h = cc
  bind-ok (calls, ok a) next v h = (a, refl, h, refl)

throw_if-ok :
    (b : Bool) (e : ImageDerivativeError) {u : Unit}
    → (throw_if b e).1 ≡ ok u
    → (b ≡ false) × ((throw_if b e).0 ≡ [])
throw_if-ok true e h = cc
throw_if-ok false e h = (refl, refl)

-- The requests and the source that the worker accepts.
abbrev pub IsAccepted : ImageDerivativeJob → ImageDerivativeSource → Type 0
IsAccepted job source =
    (source.media_type ≡ "image/png")
    × (in_range 1 maximum_source_bytes source.byte_length ≡ true)
    × (is_sha256 source.checksum_sha256 ≡ true)
    × (in_range minimum_width maximum_width job.requested_width ≡ true)
    × (in_range minimum_quality maximum_quality job.quality ≡ true)

true_of_false : (b : Bool) → not b ≡ false → b ≡ true
true_of_false b h = ground (arith, h)

then-ok :
    {B : Type 0} (b : Bool) (e : ImageDerivativeError) (next : Run B) (v : B)
    → (throw_if b e >> next).1 ≡ ok v
    → (b ≡ false) × (next.1 ≡ ok v) × ((throw_if b e >> next).0 ≡ next.0)
unfolding ◌>>◌ ◌>>=◌
then-ok true e next v h = cc
then-ok false e next v h = (refl, h, refl)

assert_source-ok :
    (job : ImageDerivativeJob) (source : ImageDerivativeSource)
    → (assert_source job source).1 ≡ ok tt
    → IsAccepted job source × ((assert_source job source).0 ≡ [])
unfolding assert_source
assert_source-ok job source h =
    let (mime, h1, e1) = then-ok (not (source.media_type == "image/png")) _ _ tt h in
    let (bytes, h2, e2) =
      then-ok (not (in_range 1 maximum_source_bytes source.byte_length)) _ _ tt h1 in
    let (sum, h3, e3) = then-ok (not (is_sha256 source.checksum_sha256)) _ _ tt h2 in
    let (width, h4, e4) =
      then-ok (not (in_range minimum_width maximum_width job.requested_width)) _ _ tt h3 in
    let (quality, e5) =
      throw_if-ok (not (in_range minimum_quality maximum_quality job.quality)) _ h4 in
    (
      (
        (eq_iff source.media_type "image/png").0 (true_of_false _ mime),
        true_of_false _ bytes,
        true_of_false _ sum,
        true_of_false _ width,
        true_of_false _ quality,
      ),
      e1 ∙ e2 ∙ e3 ∙ e4 ∙ e5,
    )

silent : (calls later all : List Call) → all ≡ calls ++ later → calls ≡ [] → all ≡ later
silent calls later all e none_made = e ∙ ap (λ x. x ++ later) none_made

or-false : (a b : Bool) → (a || b) ≡ false → (a ≡ false) × (b ≡ false)
or-false a b h = ground (arith, h)

same_number : (a b : JsNumber) → number_beq a b ≡ true → a ≡ b
same_number (natural n) (natural m) h = ground (arith, h)
same_number (natural n) (other t) h = cc
same_number (other s) (natural m) h = cc
same_number (other s) (other t) h = ap other ((eq_iff s t).0 h)

-- What the processor returned is a PNG within the limits, and its checksum is that of its bytes.
abbrev pub IsFineOutput : (List ℕ → String) → ProcessedImageDerivative → Type 0
IsFineOutput digest output =
    (output.media_type ≡ "image/png")
    × (in_range minimum_width maximum_width output.width ≡ true)
    × (within_pixels output.width output.height ≡ true)
    × (output.byte_length ≡ natural (length output.body))
    × (in_range 1 maximum_output_bytes output.byte_length ≡ true)
    × (digest output.body ≡ output.checksum_sha256)

module _ (digest : List ℕ → String) where
  is_fine_output-true :
      (output : ProcessedImageDerivative)
      → is_fine_output digest output ≡ true
      → IsFineOutput digest output
  unfolding is_fine_output
  is_fine_output-true output h = (
    (eq_iff output.media_type "image/png").0 (ground (arith, h)),
    ground (arith, h),
    ground (arith, h),
    same_number output.byte_length (natural (length output.body)) (ground (arith, h)),
    ground (arith, h),
    (eq_iff (digest output.body) output.checksum_sha256).0 (ground (arith, h)),
  )

  -- the replies of a run that did all its work
  abbrev pub IsCompleted : Collaborators → ImageDerivativeJob → Type 0
  IsCompleted c job =
      (source : ImageDerivativeSource) × (output : ProcessedImageDerivative)
      × (verified : VerifiedImageDerivativeOutput) × (c.read job ≡ ok source)
      × IsAccepted job source
      × (c.process job source ≡ ok output)
      × IsFineOutput digest output
      × (c.write job output ≡ ok verified)
      × (verified.byte_length ≡ output.byte_length)
      × (verified.checksum_sha256 ≡ output.checksum_sha256)
      × (c.complete job verified ≡ ok tt)

  pub work-ok :
      (c : Collaborators) (job : ImageDerivativeJob)
      → (work digest c job).1 ≡ ok tt
      → IsCompleted c job
        × ((work digest c job).0 ≡ Call.read ∷ Call.process ∷ Call.write ∷ Call.complete ∷ [])
  unfolding work assert_processed ◌>>◌
  work-ok c job h =
      let (source, read, h1, e1) = bind-ok (Call.read ∷ [], c.read job) _ tt h in
      let (u, checked, h2, e2) = bind-ok (assert_source job source) _ tt h1 in
      let (accepted, quiet) = assert_source-ok job source checked in
      let (output, process, h3, e3) = bind-ok (Call.process ∷ [], c.process job source) _ tt h2 in
      let (is_fine, h4, e4) = then-ok (not (is_fine_output digest output)) _ _ tt h3 in
      let (verified, write, h5, e5) = bind-ok (Call.write ∷ [], c.write job output) _ tt h4 in
      let (same, h6, e6) =
        then-ok
          (not (number_beq verified.byte_length output.byte_length)
            || not (verified.checksum_sha256 == output.checksum_sha256))
          _ _ tt h5 in
      let (same_bytes, same_sum) =
        or-false (not (number_beq verified.byte_length output.byte_length)) _ same in
      (
        (
          source,
          output,
          verified,
          read,
          accepted,
          process,
          is_fine_output-true output (true_of_false _ is_fine),
          write,
          same_number _ _ (true_of_false _ same_bytes),
          (eq_iff _ _).0 (true_of_false _ same_sum),
          h6,
        ),
        e1
            ∙ ap (λ l. Call.read ∷ l)
                (silent _ _ _ e2 quiet
                  ∙ e3
                  ∙ ap (λ l. Call.process ∷ l) (e4 ∙ e5 ∙ ap (λ l. Call.write ∷ l) e6)),
      )
