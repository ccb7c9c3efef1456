-- ===== src/Config/Store.antt =====
-- src/client-storage-configuration.ts: the in-memory store, its versions and its clients.
-- A method that throws changes nothing, so it returns the error, or its result and the new state.
-- A version's id and the times are arguments, as the source draws them from outside.
pub mod Active
pub mod Requests
pub mod Changes
pub mod Single
pub mod Frozen
pub mod Valid
use mathlib.Core.List.{foldr}
use Prim.Native.Nat.{max}
use z_s_app.Prelude.{
  ℕ, ◌+◌, String, Bool, true, false, ◌&&◌, ◌||◌, not, Option, none, some, List, [], ◌∷◌, ◌++◌, map,
  ◌==◌, string_eq, filter, find, any, length, if◌then◌else◌, sort_desc, Result, ok, err, ◌>>=◌,
  ◌>>◌, fail_if,
}
use z_s_app.Prelude.Map
use z_s_app.Prelude.Map.{Map, values}
use z_s_app.Config.Document.{
  ClientStorageEnvironment, IntegrationTokenScope, ConfigurationVersionState,
  ConfigurationValidationState, ConfigurationDraftDocument, client_environment_eq, version_state_eq,
}
use z_s_app.Config.Text.{is_identifier, is_label, is_secret_reference}
use z_s_app.Config.Metadata.{
  MetadataError, invalid_safe_metadata, safe_metadata_too_large, unsafe_metadata_key,
  assert_safe_metadata,
}
use z_s_app.Config.Document.{ProviderConnectionInput}
use z_s_app.Config.State.{
  error, ConfigurationError, ConfigurationVersionSnapshot, StoredVersion, ConfigurationStore,
  Answer,
}
use z_s_app.Config.Validation.{ValidationError, validate_configuration_draft, metadata_of}

unfoldable pub register_client : String → ConfigurationStore → Answer ConfigurationStore
register_client client_id s = do
  fail_if (not (is_identifier client_id)) (error 400 "invalid-client-id")
  ok (record s {
    clients =
        if any (λ c. c == client_id) s.clients then s.clients else s.clients ++ client_id ∷ [];
  })

abbrev pub assert_client : String → ConfigurationStore → Answer (Unit {0})
assert_client client_id s =
    fail_if (not (any (λ c. c == client_id) s.clients)) (error 404 "client-storage-not-found")

abbrev owned : String → ClientStorageEnvironment → Option StoredVersion → Answer StoredVersion
owned client_id environment none = err (error 404 "configuration-version-not-found")
owned client_id environment (some v) =
    if not (v.client_id == client_id) || not (v.snapshot.environment == environment)
    then err (error 404 "configuration-version-not-found")
    else ok v

pub find_version :
    String → ClientStorageEnvironment → String → ConfigurationStore → Answer StoredVersion
find_version client_id environment version_id s =
    owned client_id environment (Map.get version_id s.versions)

abbrev pub in_state : ConfigurationVersionState → StoredVersion → Bool
in_state state v = v.snapshot.state == state

abbrev pub of_scope : String → ClientStorageEnvironment → StoredVersion → Bool
of_scope client_id environment v = v.client_id == client_id && v.snapshot.environment == environment

abbrev pub is_active_in : String → ClientStorageEnvironment → StoredVersion → Bool
is_active_in client_id environment v =
    of_scope client_id environment v && in_state ConfigurationVersionState.active v

abbrev metadata_error : MetadataError → ConfigurationError
metadata_error invalid_safe_metadata = error 400 "invalid-safe-metadata"
metadata_error safe_metadata_too_large = error 400 "safe-metadata-too-large"
metadata_error unsafe_metadata_key = error 400 "unsafe-metadata-key"

abbrev metadata_checked : Result MetadataError (Unit {0}) → Answer (Unit {0})
metadata_checked (ok _) = ok tt
metadata_checked (err e) = err (metadata_error e)

assert_connections : List ProviderConnectionInput → Answer (Unit {0})
assert_connections [] = ok tt
assert_connections (c ∷ rest) = do
  fail_if (not (is_identifier c.connection_id)) (error 400 "invalid-provider-connection-id")
  fail_if (not (is_label c.display_label)) (error 400 "invalid-provider-connection-label")
  fail_if (not (is_secret_reference c.secret_reference_id))
      (error 400 "invalid-secret-reference-id")
  metadata_checked (assert_safe_metadata (metadata_of c.safe_metadata))
  assert_connections rest

unfoldable pub assert_configuration_draft_input : ConfigurationDraftDocument → Answer (Unit {0})
unfolding assert_connections
assert_configuration_draft_input input = assert_connections input.provider_connections

-- `Math.max(0, ...numbers)`
maximum : List ℕ → ℕ
maximum [] = 0
maximum (n ∷ l) = max n (maximum l)

abbrev next_number : String → ClientStorageEnvironment → ConfigurationStore → ℕ
next_number client_id environment s =
    maximum (
      map (λ v. v.snapshot.version_number)
        (filter (of_scope client_id environment) (values s.versions)))
    + 1

abbrev validation_state_of : List ValidationError → ConfigurationValidationState
validation_state_of [] = ConfigurationValidationState.valid
validation_state_of (e ∷ l) = ConfigurationValidationState.invalid

abbrev pub is_none_left : List ValidationError → Bool
is_none_left [] = true
is_none_left (e ∷ l) = false

abbrev pub supersede : ℕ → StoredVersion → StoredVersion
supersede now v = record v {
  snapshot = record v.snapshot {
    state = ConfigurationVersionState.superseded;
    superseded_at = some now;
    updated_at = now;
  };
}

abbrev pub activated : ℕ → ConfigurationVersionSnapshot → ConfigurationVersionSnapshot
activated now v = record v {
  state = ConfigurationVersionState.active;
  validation_state = ConfigurationValidationState.valid;
  validation_errors = [];
  activated_at = some now;
  updated_at = now;
}

module _ (to_lower_case : List ℕ → List ℕ) where
  unfoldable pub create_draft :
      String
      → ClientStorageEnvironment
      → ConfigurationDraftDocument
      → ℕ
      → Option String
      → String
      → ConfigurationStore
      → Answer (ConfigurationVersionSnapshot × ConfigurationStore)
  unfolding maximum
  create_draft client_id environment input now cloned_from new_id s = do
    assert_client client_id s
    assert_configuration_draft_input input
    let errors = validate_configuration_draft to_lower_case input
    let snapshot : ConfigurationVersionSnapshot = record {
      id = new_id;
      environment = environment;
      version_number = next_number client_id environment s;
      state = ConfigurationVersionState.draft;
      validation_state = validation_state_of errors;
      validation_errors = errors;
      cloned_from_version_id = cloned_from;
      activated_at = none;
      superseded_at = none;
      created_at = now;
      updated_at = now;
      document = input;
    }
    ok (
      snapshot,
      record s {
        versions =
            Map.put new_id (record { client_id = client_id; snapshot = snapshot }) s.versions;
      },
    )

  unfoldable pub read_version :
      String
      → ClientStorageEnvironment
      → String
      → ConfigurationStore
      → Answer ConfigurationVersionSnapshot
  unfolding find_version
  read_version client_id environment version_id s = do
    assert_client client_id s
    v ← find_version client_id environment version_id s
    ok v.snapshot

  unfoldable pub replace_draft :
      String
      → ClientStorageEnvironment
      → String
      → ConfigurationDraftDocument
      → ℕ
      → ConfigurationStore
      → Answer (ConfigurationVersionSnapshot × ConfigurationStore)
  unfolding find_version
  replace_draft client_id environment version_id input now s = do
    assert_client client_id s
    assert_configuration_draft_input input
    v ← find_version client_id environment version_id s
    fail_if (not (in_state ConfigurationVersionState.draft v))
        (error 409 "configuration-version-immutable")
    let errors = validate_configuration_draft to_lower_case input
    let snapshot : ConfigurationVersionSnapshot = record (v.snapshot) {
      document = input;
      validation_state = validation_state_of errors;
      validation_errors = errors;
      updated_at = now;
    }
    ok (
      snapshot,
      record s {
        versions =
            Map.put version_id (record { client_id = client_id; snapshot = snapshot }) s.versions;
      },
    )

  unfoldable pub delete_draft :
      String → ClientStorageEnvironment → String → ConfigurationStore → Answer ConfigurationStore
  unfolding find_version
  delete_draft client_id environment version_id s = do
    assert_client client_id s
    v ← find_version client_id environment version_id s
    fail_if (not (in_state ConfigurationVersionState.draft v))
        (error 409 "configuration-version-immutable")
    ok (record s { versions = Map.remove version_id s.versions })

  unfoldable pub activate_draft :
      String
      → ClientStorageEnvironment
      → String
      → ℕ
      → ConfigurationStore
      → Answer (ConfigurationVersionSnapshot × ConfigurationStore)
  unfolding find_version
  activate_draft client_id environment version_id now s = do
    assert_client client_id s
    v ← find_version client_id environment version_id s
    fail_if (not (in_state ConfigurationVersionState.draft v))
        (error 409 "configuration-version-immutable")
    fail_if (not (is_none_left (validate_configuration_draft to_lower_case v.snapshot.document)))
        (error 409 "configuration-version-invalid")
    let others = Map.update_first (is_active_in client_id environment) (supersede now) s.versions
    let snapshot = activated now v.snapshot
    ok (
      snapshot,
      record s { versions = Map.put version_id (record v { snapshot = snapshot }) others },
    )

  unfoldable pub clone_version :
      String
      → ClientStorageEnvironment
      → String
      → ℕ
      → String
      → ConfigurationStore
      → Answer (ConfigurationVersionSnapshot × ConfigurationStore)
  unfolding find_version
  clone_version client_id environment version_id now new_id s = do
    assert_client client_id s
    source ← find_version client_id environment version_id s
    create_draft client_id environment source.snapshot.document now (some source.snapshot.id) new_id
        s
