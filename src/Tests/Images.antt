-- ===== src/Tests/Images.antt =====
-- src/image-derivative.ts: the worker, at one job.
use z_s_app.Prelude.{ℕ, ◌≡◌, refl, true, some, List, [], ◌∷◌, String, ok, err}
use z_s_app.Config.Document.{ClientStorageEnvironment, natural, OutputFormat, Fit}
use z_s_app.Images.Errors.{DiagnosticCategory, coded, safe_code, normalize_error, is_safe_code}
use z_s_app.Images.{
  ImageDerivativeJob, ImageDerivativeJobState, ImageDerivativeSource, ProcessedImageDerivative,
  VerifiedImageDerivativeOutput, Call, Collaborators, processed, is_sha256, assert_source,
  is_fine_output, assert_processed, work, recover, reported, stored_failure, work_or_recover,
  after_claim, process_next,
}

abbrev hash : String
hash = "aaaaaaaabbbbbbbbccccccccddddddddeeeeeeeeffffffff0000000011111111"

abbrev digest : List ℕ → String
digest bytes = hash

images : Unit {0}
unfolding is_sha256 assert_source is_fine_output assert_processed work recover reported
    stored_failure work_or_recover after_claim process_next safe_code normalize_error is_safe_code
images = tt

abbrev job : ImageDerivativeJob
job = record {
  id = "j1";
  source_storage_object_id = "o1";
  storage_control_client_id = "shop";
  environment = ClientStorageEnvironment.dev;
  configuration_version_id = "v1";
  configuration_fingerprint = "f1";
  configuration_route_id = "images";
  configuration_image_preset_id = "p1";
  preset_id = "thumb";
  target_configuration_vault_id = "originals";
  requested_width = natural 320;
  output_format = OutputFormat.png;
  quality = natural 80;
  fit = Fit.inside;
  state = ImageDerivativeJobState.processing;
  attempt_count = 1;
  maximum_attempts = 3;
  lease_token = "l1";
}

abbrev source : ImageDerivativeSource
source = record {
  media_type = "image/png";
  byte_length = natural 3;
  checksum_sha256 = hash;
  body = 1 ∷ 2 ∷ 3 ∷ [];
}

abbrev output : ProcessedImageDerivative
output = record {
  media_type = "image/png";
  width = natural 320;
  height = natural 200;
  byte_length = natural 2;
  checksum_sha256 = hash;
  body = 7 ∷ 8 ∷ [];
}

abbrev verified : VerifiedImageDerivativeOutput
verified = record { storage_object_id = "o2"; byte_length = natural 2; checksum_sha256 = hash }

abbrev healthy : Collaborators
healthy = record {
  claim_next = ok (some job);
  read = λ j. ok source;
  process = λ j s. ok output;
  write = λ j o. ok verified;
  complete = λ j v. ok tt;
  cleanup = λ j. ok tt;
  fail = λ j f. ok tt;
  close = λ s. ok tt;
}

-- the writer throws an object with a code that is not safe
abbrev broken : Collaborators
broken = record healthy { write = λ j o. err (coded "not-ready" "Disk /dev/sda1" true) }

completes : process_next digest healthy ≡ (
  Call.claim_next ∷ Call.read ∷ Call.process ∷ Call.write ∷ Call.complete ∷ Call.close ∷ [],
  ok processed,
)
unfolding images
completes = refl

recovers : process_next digest broken ≡ (
  Call.claim_next
      ∷ Call.read
      ∷ Call.process
      ∷ Call.write
      ∷ Call.cleanup
      ∷ Call.fail (record {
        category = DiagnosticCategory.not_ready;
        code = "image-derivative-internal-error";
        retryable = true;
        retry_delay_ms = 60000;
      })
      ∷ Call.close
      ∷ [],
  ok processed,
)
unfolding images
recovers = refl
