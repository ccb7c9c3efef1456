-- ===== src/Services/Repository.antt =====
-- src/storage-service-memory.ts: the in-memory repository. A text of an event's number is an argument.
pub mod Identity
use Prim.Native.String.{◌++◌ as joined}
use z_s_app.Prelude.{
  nat_beq, ℕ, ◌+◌, String, Bool, true, false, ◌&&◌, not, Option, none, some, List, [], ◌∷◌, map,
  filter, find, length, ◌==◌, string_eq, Result, ok, err, ◌>>=◌, ◌>>◌, fail_if, if◌then◌else◌,
}
use z_s_app.Prelude.Map
use z_s_app.Prelude.Map.{Map, values}
use z_s_app.Config.Document.{ClientStorageEnvironment, Json, client_environment_eq}
use z_s_app.Services.{
  StorageServiceStatus, StorageServiceOwnership, LastTestStatus, StorageServiceCapabilities,
  StorageServiceSnapshot, StorageServiceDependencySnapshot, StorageServiceActivityEvent,
  StorageServiceListFilter, StorageServiceError, storage_service_status_for_test,
}

pub record Entry : Type 0 where
  pub snapshot : StorageServiceSnapshot
  pub active_secret_id : Option String
  pub activity : List StorageServiceActivityEvent
  pub dependencies : StorageServiceDependencySnapshot

abbrev pub Entries : Type 0
Entries = Map Entry

abbrev environment_text : ClientStorageEnvironment → String
environment_text ClientStorageEnvironment.dev = "dev"
environment_text ClientStorageEnvironment.staging = "staging"
environment_text ClientStorageEnvironment.prod = "prod"

unfoldable pub key : String → ClientStorageEnvironment → String → String
key client_id environment service_id =
    joined client_id (joined "\0" (joined (environment_text environment) (joined "\0" service_id)))

abbrev not_found : StorageServiceError
not_found = record { status = 404; code = "storage-service-not-found" }

abbrev pub or_not_found : Option Entry → Result StorageServiceError Entry
or_not_found none = err not_found
or_not_found (some e) = ok e

unfoldable pub entry :
    String → ClientStorageEnvironment → String → Entries → Result StorageServiceError Entry
entry client_id environment service_id entries =
    or_not_found (Map.get (key client_id environment service_id) entries)

pub record CreateInput : Type 0 where
  pub id : String
  pub service_id : String
  pub client_id : String
  pub environment : ClientStorageEnvironment
  pub display_name : String
  pub provider_type : String
  pub ownership : StorageServiceOwnership
  pub safe_metadata : Json
  pub capabilities : StorageServiceCapabilities

abbrev no_dependencies : StorageServiceDependencySnapshot
no_dependencies = record {
  draft_configuration_count = 0;
  active_configuration_count = 0;
  vault_count = 0;
  route_count = 0;
  object_copy_count = 0;
  derivative_output_count = 0;
}

abbrev pub created : CreateInput → ℕ → StorageServiceSnapshot
created input now = record {
  id = input.id;
  service_id = input.service_id;
  client_id = input.client_id;
  environment = input.environment;
  display_name = input.display_name;
  provider_type = input.provider_type;
  ownership = input.ownership;
  managed_secret_reference_id = none;
  status = StorageServiceStatus.setup_incomplete;
  safe_metadata = input.safe_metadata;
  capabilities = input.capabilities;
  last_test_status = LastTestStatus.never;
  last_tested_at = none;
  last_diagnostic_code = none;
  created_at = now;
  updated_at = now;
}

abbrev pub has_entry : Option Entry → Bool
has_entry none = false
has_entry (some e) = true

unfoldable pub create :
    CreateInput → ℕ → Entries → Result StorageServiceError (StorageServiceSnapshot × Entries)
create input now entries = do
  let k = key input.client_id input.environment input.service_id
  fail_if (has_entry (Map.get k entries))
      (record { status = 409; code = "storage-service-id-conflict" })
  let added : Entry = record {
    snapshot = created input now;
    active_secret_id = none;
    activity = [];
    dependencies = no_dependencies;
  }
  ok (created input now, Map.put k added entries)

abbrev same_or_any {ℓ} : {A : Type ℓ} → (A → A → Bool) → A → Option A → Bool
same_or_any same x none = true
same_or_any same x (some y) = same x y

abbrev ownership_beq : StorageServiceOwnership → StorageServiceOwnership → Bool
ownership_beq StorageServiceOwnership.z_s_managed StorageServiceOwnership.z_s_managed = true
ownership_beq StorageServiceOwnership.client_owned StorageServiceOwnership.client_owned = true
ownership_beq _ _ = false

abbrev status_tag : StorageServiceStatus → ℕ
status_tag StorageServiceStatus.setup_incomplete = 0
status_tag StorageServiceStatus.validating = 1
status_tag StorageServiceStatus.ready = 2
status_tag StorageServiceStatus.degraded = 3
status_tag StorageServiceStatus.auth_failed = 4
status_tag StorageServiceStatus.unreachable = 5
status_tag StorageServiceStatus.misconfigured = 6
status_tag StorageServiceStatus.disabled = 7
status_tag StorageServiceStatus.archived = 8

abbrev pub of_client : String → StorageServiceSnapshot → Bool
of_client client_id s = s.client_id == client_id

unfoldable pub passes : StorageServiceListFilter → StorageServiceSnapshot → Bool
passes f s =
    same_or_any (λ a b. a == b) s.environment f.environment
    && same_or_any (λ a b. a == b) s.provider_type f.provider_type
    && same_or_any ownership_beq s.ownership f.ownership
    && same_or_any (λ a b. nat_beq (status_tag a) (status_tag b)) s.status f.status

unfoldable pub list : String → StorageServiceListFilter → Entries → List StorageServiceSnapshot
unfolding passes
list client_id f entries =
    filter (passes f) (filter (of_client client_id) (map (λ e. e.snapshot) (values entries)))

unfoldable pub read :
    String
    → ClientStorageEnvironment
    → String
    → Entries
    → Result StorageServiceError StorageServiceSnapshot
unfolding entry
read client_id environment service_id entries = do
  e ← entry client_id environment service_id entries
  ok e.snapshot

unfoldable pub read_by_internal_id :
    String → Entries → Result StorageServiceError StorageServiceSnapshot
read_by_internal_id internal_id entries = do
  e ← or_not_found (find (λ e. e.snapshot.id == internal_id) (values entries))
  ok e.snapshot

unfoldable pub active_secret_id :
    String
    → ClientStorageEnvironment
    → String
    → Entries
    → Result StorageServiceError (Option String)
unfolding entry
active_secret_id client_id environment service_id entries = do
  e ← entry client_id environment service_id entries
  ok e.active_secret_id

-- an entry that is found is replaced by what `f` makes of it
unfoldable pub change :
    (Entry → Entry)
    → String
    → ClientStorageEnvironment
    → String
    → Entries
    → Result StorageServiceError (StorageServiceSnapshot × Entries)
unfolding entry
change f client_id environment service_id entries = do
  e ← entry client_id environment service_id entries
  ok ((f e).snapshot, Map.put (key client_id environment service_id) (f e) entries)

pub record TestResult : Type 0 where
  pub connected : Bool
  pub capabilities : StorageServiceCapabilities
  pub diagnostic_code : Option String
  pub tested_at : String

abbrev pub bound : String → ℕ → Entry → Entry
bound secret_id now e = record e {
  active_secret_id = some secret_id;
  snapshot = record e.snapshot { status = StorageServiceStatus.validating; updated_at = now };
}

abbrev newer {ℓ} : {A : Type ℓ} → Option A → Option A → Option A
newer none old = old
newer (some x) old = some x

pub tested : TestResult → ℕ → Entry → Entry
tested r now e = record e {
  snapshot = record e.snapshot {
    status = storage_service_status_for_test r.connected r.diagnostic_code;
    capabilities = r.capabilities;
    last_test_status = if r.connected then LastTestStatus.passed else LastTestStatus.failed;
    last_tested_at = some r.tested_at;
    last_diagnostic_code = newer r.diagnostic_code e.snapshot.last_diagnostic_code;
    updated_at = now;
  };
}

abbrev pub with_status : StorageServiceStatus → ℕ → Entry → Entry
with_status status now e = record e {
  snapshot = record e.snapshot { status = status; updated_at = now };
}

-- `number` prints a number in decimal.
abbrev pub with_event : (ℕ → String) → String → Json → ℕ → Entry → Entry
with_event number event_type summary now e =
    let event : StorageServiceActivityEvent = record {
      id = joined event_type (joined "-" (number (length e.activity + 1)));
      event_type = event_type;
      safe_summary = summary;
      created_at = now;
    } in
    record e { activity = event ∷ e.activity }

-- The calls that change an entry.
pub data Update : Type 0 where
  bind_secret : String → ℕ → Update
  record_test : TestResult → ℕ → Update
  disable archive : ℕ → Update
  set_dependencies : StorageServiceDependencySnapshot → Update
  record_activity : String → Json → ℕ → Update

unfoldable pub apply : (ℕ → String) → Update → Entry → Entry
unfolding tested
apply number (bind_secret secret_id now) e = bound secret_id now e
apply number (record_test r now) e = tested r now e
apply number (disable now) e = with_status StorageServiceStatus.disabled now e
apply number (archive now) e = with_status StorageServiceStatus.archived now e
apply number (set_dependencies d) e = record e { dependencies = d }
apply number (record_activity event_type summary now) e = with_event number event_type summary now e

pub data Request : Type 0 where
  create_service : CreateInput → ℕ → Request
  update_service : Update → String → ClientStorageEnvironment → String → Request

abbrev pub settle :
    Entries → Result StorageServiceError (StorageServiceSnapshot × Entries) → Entries
settle entries (ok (s, after)) = after
settle entries (err e) = entries

unfoldable pub handle : (ℕ → String) → Request → Entries → Entries
handle number (create_service input now) entries = settle entries (create input now entries)
handle number (update_service u client_id environment service_id) entries =
    settle entries (change (apply number u) client_id environment service_id entries)

unfoldable pub handle_all : (ℕ → String) → List Request → Entries → Entries
handle_all number [] entries = entries
handle_all number (r ∷ rest) entries = handle_all number rest (handle number r entries)
