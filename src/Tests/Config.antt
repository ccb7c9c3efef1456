-- ===== src/Tests/Config.antt =====
-- src/client-storage-configuration.ts at a small configuration: one route to one vault.
use z_s_app.Prelude.{
  ℕ, ◌+◌, ◌≡◌, refl, none, some, List, [], ◌∷◌, map, String, if◌then◌else◌, filter, find, leb, ◌&&◌,
  arith,
}
use z_s_app.Prelude.Map
use z_s_app.Prelude.Map.{values}
use z_s_app.Config.Text.{
  utf16_length, is_space, is_identifier, is_secret_reference, is_label, is_prohibited_key,
  is_prefix_template,
}
use z_s_app.Config.Document.{
  ClientStorageEnvironment, ConfigurationVersionState, ConfigurationValidationState, TargetRole,
  AssetClass, natural, permanent, ConnectionProviderType, VaultPurpose, OutputFormat, Fit,
  ProviderConnectionInput, ConfigurationVaultInput, ConfigurationRouteInput,
  ConfigurationImagePresetInput, ConfigurationDraftDocument,
}
use z_s_app.Config.Metadata.{assert_safe_metadata}
use z_s_app.Config.Validation.{
  report, connection_errors, vault_errors, preset_errors, route_errors,
  validate_configuration_draft, unknown_provider_connection,
}
use z_s_app.Config.Validation.Sound.{IsSound, validate_configuration_draft-IsSound}
use z_s_app.Config.State.{ConfigurationVersionSnapshot, StoredVersion, ConfigurationStore}
use z_s_app.Config.Store.{
  register_client, create_draft, replace_draft, delete_draft, activate_draft, clone_version,
  activated, supersede, assert_configuration_draft_input,
}
use z_s_app.Config.Store.Active.{IsSingle}
use z_s_app.Config.Store.Requests.{Request, register, create, delete, activate, handle, handle_all}
use z_s_app.Config.Store.Single.{handle_all-IsSingle}
use z_s_app.Config.Store.Frozen.{Kept, handle_all-keeps_history}
use z_s_app.Config.Store.Valid.{handle_all-validated}

-- the capital letters of ASCII
abbrev lowered : List ℕ → List ℕ
lowered = map (λ c. if leb 65 c && leb c 90 then c + 32 else c)

abbrev connection : ProviderConnectionInput
connection = record {
  connection_id = "minio-1";
  display_label = "MinIO";
  provider_type = ConnectionProviderType.minio;
  secret_reference_id = "vault:minio-1";
  safe_metadata = none;
}

abbrev vault : ConfigurationVaultInput
vault = record {
  vault_id = "originals";
  provider_connection_id = "minio-1";
  display_label = "Originals";
  purpose = VaultPurpose.originals;
  bucket_label = "media";
  prefix_template = "images/*";
  retention = permanent;
}

abbrev preset : ConfigurationImagePresetInput
preset = record {
  preset_id = "thumb";
  target_vault_id = "originals";
  widths = natural 320 ∷ natural 640 ∷ [];
  output_format = OutputFormat.png;
  quality = natural 80;
  fit = Fit.inside;
}

abbrev route : ConfigurationRouteInput
route = record {
  route_id = "images";
  asset_class = AssetClass.image;
  targets = record { role = TargetRole.primary; vault_id = "originals" } ∷ [];
  image_preset_id = some "thumb";
}

abbrev pub good : ConfigurationDraftDocument
good = record {
  provider_connections = connection ∷ [];
  vaults = vault ∷ [];
  routes = route ∷ [];
  image_presets = preset ∷ [];
}

configuration : Unit {0}
unfolding assert_configuration_draft_input handle_all handle register_client create_draft
    replace_draft delete_draft activate_draft clone_version validate_configuration_draft
    connection_errors vault_errors preset_errors route_errors report utf16_length is_space
    is_identifier is_secret_reference is_label is_prohibited_key is_prefix_template
    assert_safe_metadata filter find Map.get Map.put Map.remove Map.update_first
configuration = tt

is_valid : validate_configuration_draft lowered good ≡ []
unfolding configuration
is_valid = refl

validate_configuration_draft-IsSound_example : IsSound good
validate_configuration_draft-IsSound_example =
    validate_configuration_draft-IsSound lowered good is_valid

abbrev orphan : ConfigurationDraftDocument
orphan = record { provider_connections = []; vaults = vault ∷ []; routes = []; image_presets = [] }

orphan_errors : validate_configuration_draft lowered orphan ≡ unknown_provider_connection ∷ []
unfolding configuration
orphan_errors = refl

abbrev empty : ConfigurationStore
empty = record { versions = []; tokens = []; clients = [] }

abbrev first_requests : List Request
first_requests =
    register "shop"
    ∷ create "shop" ClientStorageEnvironment.prod good 10 "v1"
    ∷ activate "shop" ClientStorageEnvironment.prod "v1" 20
    ∷ []

abbrev draft_of : String → ℕ → ConfigurationVersionSnapshot
draft_of id number = record {
  id = id;
  environment = ClientStorageEnvironment.prod;
  version_number = number;
  state = ConfigurationVersionState.draft;
  validation_state = ConfigurationValidationState.valid;
  validation_errors = [];
  cloned_from_version_id = none;
  activated_at = none;
  superseded_at = none;
  created_at = 10;
  updated_at = 10;
  document = good;
}

abbrev active_version : StoredVersion
active_version = record { client_id = "shop"; snapshot = activated 20 (draft_of "v1" 1) }

abbrev running : ConfigurationStore
running = record { versions = ("v1", active_version) ∷ []; tokens = []; clients = "shop" ∷ [] }

first_run : handle_all lowered first_requests empty ≡ running
unfolding configuration
first_run = refl

stored : Map.get "v1" (handle_all lowered first_requests empty).versions ≡ some active_version
unfolding configuration
stored = refl

handle_all-validated_example : validate_configuration_draft lowered good ≡ []
handle_all-validated_example =
    handle_all-validated lowered first_requests empty "v1" active_version refl stored refl

none_active : IsSingle empty.versions
unfolding Map.count
none_active c e = omega arith

handle_all-IsSingle_example : IsSingle (handle_all lowered first_requests empty).versions
handle_all-IsSingle_example = handle_all-IsSingle lowered first_requests empty none_active

held : Map.get "v1" running.versions ≡ some active_version
unfolding configuration
held = refl

unused : Map.get "v2" running.versions ≡ none
unfolding configuration
unused = refl

abbrev more_requests : List Request
more_requests =
    delete "shop" ClientStorageEnvironment.prod "v1"
    ∷ create "shop" ClientStorageEnvironment.prod good 10 "v2"
    ∷ activate "shop" ClientStorageEnvironment.prod "v2" 30
    ∷ []

still_unused :
    Map.get "v2"
      (handle lowered (delete "shop" ClientStorageEnvironment.prod "v1") running).versions
    ≡ none
unfolding configuration
still_unused = refl

handle_all-keeps_history_example :
    (w : StoredVersion) × (Map.get "v1" (handle_all lowered more_requests running).versions
      ≡ some w)
    × Kept active_version w
handle_all-keeps_history_example =
    handle_all-keeps_history lowered more_requests running "v1" active_version
      (tt, (still_unused, (tt, tt))) held refl

-- The second activation superseded the first version, whose deletion had been refused.
superseded_now :
    Map.get "v1" (handle_all lowered more_requests running).versions
    ≡ some (supersede 30 active_version)
unfolding configuration
superseded_now = refl
