-- ===== src/Tests/Registry.antt =====
-- src/profile-registry.ts and what it calls, at a small deployment.
use z_s_app.Prelude.{
  ◌⊎◌, ℕ, ◌≡◌, refl, ◌↔◌, true, none, some, List, [], ◌∷◌, ◌++◌, map, String, codes, All, ok, err,
  if◌then◌else◌, filter, find, sort_desc, insert_desc,
}
use z_s_app.Domain.{
  Environment, ActiveStatus, ProfileStatus, ProviderType, ProviderRole, hot, canonical,
  OperationClass, Capability, put, head, get, delete, checksum, size, range, CapabilityResultState,
  object_key_outside_prefix, capability_expired,
}
use z_s_app.Records.{
  StorageProviderRecord, StorageProfileProviderBinding, StoragePrefixClass, StorageCapabilityResult,
  HeadContentLength, RangeRead, ResolvedStorageProfileAssignment, ResolveStorageProfileInput,
  CapabilityReadinessInput, ControlPlaneDataSet,
}
use z_s_app.Prefix.{
  codes_beq, object_key_matches_pattern, is_active_class, assert_object_key_allowed,
  find_active_prefix_class,
}
use z_s_app.Prefix.Keys.{IsSafeKey}
use z_s_app.Prefix.Matching.{IsPatternOf}
use z_s_app.Prefix.Authority.{object_key_matches_pattern_iff, assert_object_key_allowed_sound}
use z_s_app.Capability.{
  assert_ready, current_result, latest, record_result, scope_of, result_identity,
}
use z_s_app.Capability.Readiness.{Passed, IsReady}
use z_s_app.Capability.Soundness.{assert_ready_sound}
use z_s_app.Capability.Recording.{AreDistinct, with_identity, record_result_lem}
use z_s_app.Integrity.{
  VerifyProviderWriteInput, IntegrityVerificationResult, matched, verify_provider_write,
}
use z_s_app.Integrity.Laws.{IsIntact, verify_provider_write_iff}
use z_s_app.Profile.{SafeFingerprintPayload, resolve, required_roles, assert_configuration}
use z_s_app.Profile.Resolution.{IsResolved, resolve_sound}

registry : Unit {0}
unfolding resolve assert_ready assert_object_key_allowed find_active_prefix_class
    object_key_matches_pattern required_roles current_result latest assert_configuration find filter
    sort_desc insert_desc verify_provider_write record_result result_identity
registry = tt

abbrev result_of : String → Capability → StorageCapabilityResult
result_of provider c = record {
  capability_run_id = "run";
  profile_id = "video";
  profile_version = 1;
  provider_id = provider;
  bucket_label = "media";
  prefix_class_id = "uploads";
  capability = c;
  result = CapabilityResultState.passed;
  verified_at = 100;
  expires_at = some 200;
  safe_evidence_ref = none;
}

abbrev capabilities : List Capability
capabilities = put ∷ head ∷ get ∷ delete ∷ checksum ∷ size ∷ range ∷ []

abbrev binding_of : ProviderRole → String → StorageProfileProviderBinding
binding_of role provider = record {
  profile_id = "video";
  profile_version = 1;
  provider_role = role;
  provider_id = provider;
  bucket_label = "media";
  required = true;
}

abbrev provider_of : String → StorageProviderRecord
provider_of name = record {
  provider_id = name;
  provider_type = ProviderType.r2;
  status = ActiveStatus.active;
  secret_reference_id = "secret";
}

abbrev uploads : StoragePrefixClass
uploads = record {
  prefix_class_id = "uploads";
  profile_id = "video";
  profile_version = 1;
  operation_class = OperationClass.user_upload;
  normalized_prefix_pattern = "video/*";
  status = ActiveStatus.active;
}

abbrev deployment : ControlPlaneDataSet
deployment = record {
  managed_apps =
      record { app_id = "maker"; environment = Environment.dev; status = ActiveStatus.active } ∷ [];
  providers = provider_of "r2" ∷ provider_of "minio" ∷ [];
  profiles =
      record {
        profile_id = "video";
        app_id = "maker";
        environment = Environment.dev;
        version = 1;
        status = ProfileStatus.active;
      }
      ∷ [];
  bindings = binding_of hot "r2" ∷ binding_of canonical "minio" ∷ [];
  prefix_classes = uploads ∷ [];
  capability_results = map (result_of "r2") capabilities ++ map (result_of "minio") capabilities;
}

abbrev digest : SafeFingerprintPayload → String
digest payload = payload.profile_id

abbrev request : String → ResolveStorageProfileInput
request key = record {
  app_id = "maker";
  environment = Environment.dev;
  profile_id = "video";
  operation_class = OperationClass.user_upload;
  object_key = some key;
  expected_configuration = none;
}

abbrev answer : ResolvedStorageProfileAssignment
answer = record {
  app_id = "maker";
  environment = Environment.dev;
  profile_id = "video";
  profile_version = 1;
  hot_provider = some (record { provider_id = "r2"; bucket_label = "media" });
  canonical_provider = record { provider_id = "minio"; bucket_label = "media" };
  prefix_class_id = "uploads";
  normalized_prefix_pattern = "video/*";
  capability_policy = record {
    head_content_length = HeadContentLength.required;
    range_read = RangeRead.required;
  };
  safe_fingerprint = "zs-profile-v1:video";
}

abbrev readiness : CapabilityReadinessInput
readiness = record {
  profile_id = "video";
  profile_version = 1;
  prefix_class_id = "uploads";
  bindings = binding_of hot "r2" ∷ binding_of canonical "minio" ∷ [];
}

abbrev write : VerifyProviderWriteInput
write = record {
  expected_provider_id = "r2";
  expected_bucket_label = "media";
  normalized_prefix_pattern = "video/*";
  object_key = "video/a.png";
  expected_checksum = some "c";
  expected_size_bytes = some 9;
  observed_provider_id = "r2";
  observed_bucket_label = "media";
  observed_checksum = some "c";
  observed_size_bytes = some 9;
  capability_policy = answer.capability_policy;
}

abbrev intact : IntegrityVerificationResult
intact = record { size_verified = true; size_verification_disposition = matched }

resolves : resolve digest deployment 150 (request "video/a.png") ≡ ok answer
unfolding registry
resolves = refl

ready : assert_ready deployment.capability_results 150 readiness ≡ ok answer.capability_policy
unfolding registry
ready = refl

allowed :
    assert_object_key_allowed (uploads ∷ []) "video" 1 OperationClass.user_upload "video/a.png"
    ≡ ok tt
unfolding registry
allowed = refl

written : verify_provider_write write ≡ ok intact
unfolding registry
written = refl

matches : object_key_matches_pattern "video/a.png" "video/*" ≡ ok true
unfolding registry
matches = refl

resolve_sound_example : IsResolved deployment 150 (request "video/a.png") answer
resolve_sound_example = resolve_sound digest deployment 150 (request "video/a.png") answer resolves

assert_ready_sound_example :
    All (λ b. IsReady deployment.capability_results 150 (scope_of readiness b)) readiness.bindings
    × ((answer.capability_policy.head_content_length ≡ HeadContentLength.optional_with_checksum)
        ⊎ All
            (λ b. Passed deployment.capability_results 150 (scope_of readiness b) size)
            readiness.bindings)
    × ((answer.capability_policy.range_read ≡ RangeRead.optional)
        ⊎ (answer.capability_policy.range_read ≡ RangeRead.not_applicable)
        ⊎ All
            (λ b. Passed deployment.capability_results 150 (scope_of readiness b) range)
            readiness.bindings)
assert_ready_sound_example =
    assert_ready_sound deployment.capability_results 150 readiness answer.capability_policy ready

object_key_matches_pattern_iff_example :
    (object_key_matches_pattern "video/a.png" "video/*" ≡ ok true)
    ↔ (IsSafeKey (codes "video/a.png") × IsPatternOf (codes "video/*") (codes "video/a.png"))
object_key_matches_pattern_iff_example = object_key_matches_pattern_iff "video/a.png" "video/*"

assert_object_key_allowed_sound_example :
    (r : StoragePrefixClass) × (filter
        (is_active_class "video" 1 OperationClass.user_upload)
        (uploads ∷ [])
      ≡ r ∷ [])
    × IsSafeKey (codes "video/a.png")
    × IsPatternOf (codes r.normalized_prefix_pattern) (codes "video/a.png")
assert_object_key_allowed_sound_example =
    assert_object_key_allowed_sound (uploads ∷ []) "video" 1 OperationClass.user_upload
      "video/a.png" allowed

verify_provider_write_iff_example :
    (verify_provider_write write ≡ ok intact) ↔ IsIntact write intact
verify_provider_write_iff_example = verify_provider_write_iff write intact

abbrev recorded : List StorageCapabilityResult
recorded = result_of "r2" put ∷ []

record_result_lem_example :
    AreDistinct (record_result recorded (result_of "r2" head))
    × ((i : List ℕ)
        → with_identity i (record_result recorded (result_of "r2" head)) ≡ (
            if codes_beq (result_identity (result_of "r2" head)) i
            then some (result_of "r2" head)
            else with_identity i recorded))
record_result_lem_example = record_result_lem recorded (result_of "r2" head) (tt, tt)

escapes : resolve digest deployment 150 (request "video/../a.png") ≡ err object_key_outside_prefix
unfolding registry
escapes = refl

expires : resolve digest deployment 200 (request "video/a.png") ≡ err capability_expired
unfolding registry
expires = refl
