-- ===== src/Tests/Control.antt =====
-- src/control-plane-ui-abuse.ts, src/storage-service-memory.ts and the duplicate protection of
-- src/runtime-service.ts at small inputs.
use z_s_app.Prelude.{ℕ, ◌≡◌, refl, true, false, none, some, List, [], ◌∷◌, String, arith}
use z_s_app.Prelude.Map
use z_s_app.Config.Document.{ClientStorageEnvironment, object, last}
use z_s_app.Config.Text.{includes_text}
use z_s_app.Duplicates.{
  DuplicateProtectionStore, execute, starts, replays, run_all, executed, threw,
}
use z_s_app.Duplicates.Once.{execute-once}
use z_s_app.Limiter.{assert_allowed, record_failure, active_window, record_success}
use z_s_app.Limiter.Limit.{failures, assert_allowed-failures, assert_allowed-later}
use z_s_app.Services.{
  StorageServiceStatus, StorageServiceOwnership, storage_service_status_for_test,
}
use z_s_app.Services.Repository.{
  Entry, Entries, key, CreateInput, created, create, change, archive, record_activity, apply,
  Request, create_service, update_service, handle, handle_all,
}
use z_s_app.Services.Repository.Identity.{IsSameService, handle_all-keeps_service}

control : Unit {0}
unfolding execute includes_text storage_service_status_for_test assert_allowed record_failure
    active_window record_success Map.get Map.put Map.remove key create change apply handle
    handle_all
control = tt

closed : (active_window "ip" 1000 []).0 ≡ none
unfolding control
closed = refl

-- the fifth failure in the minute
assert_allowed-failures_example :
    (assert_allowed "ip" 5000
      (failures "ip" (2000 ∷ 2500 ∷ 3000 ∷ 4000 ∷ []) (record_failure "ip" 1000 []))).0
    ≡ false
assert_allowed-failures_example =
    assert_allowed-failures "ip" 1000 (2000 ∷ 2500 ∷ 3000 ∷ 4000 ∷ []) 5000 [] closed
      (omega arith, (omega arith, (omega arith, (omega arith, tt)))) (omega arith)

assert_allowed-later_example :
    (assert_allowed "ip" 61000 (failures "ip" (2000 ∷ []) (record_failure "ip" 1000 []))).0 ≡ true
assert_allowed-later_example =
    assert_allowed-later "ip" 1000 (2000 ∷ []) 61000 [] closed (omega arith, tt) (omega arith)

abbrev input : CreateInput
input = record {
  id = "s1";
  service_id = "minio";
  client_id = "shop";
  environment = ClientStorageEnvironment.dev;
  display_name = "MinIO";
  provider_type = "minio";
  ownership = StorageServiceOwnership.client_owned;
  safe_metadata = object last;
  capabilities = λ k. true;
}

-- a number in decimal, for this test
abbrev number : ℕ → String
number n = "1"

abbrev service_key : String
service_key = key "shop" ClientStorageEnvironment.dev "minio"

abbrev one : Entries
one = handle_all number (create_service input 5 ∷ []) []

abbrev new_entry : Entry
new_entry = record {
  snapshot = created input 5;
  active_secret_id = none;
  activity = [];
  dependencies = record {
    draft_configuration_count = 0;
    active_configuration_count = 0;
    vault_count = 0;
    route_count = 0;
    object_copy_count = 0;
    derivative_output_count = 0;
  };
}

is_stored : Map.get service_key one ≡ some new_entry
unfolding control
is_stored = refl

abbrev updates : List Request
updates =
    create_service (record input { display_name = "Other" }) 6
    ∷ update_service (record_activity "created" (object last) 7) "shop" ClientStorageEnvironment.dev
        "minio"
    ∷ update_service (archive 8) "shop" ClientStorageEnvironment.dev "minio"
    ∷ []

handle_all-keeps_service_example :
    (f : Entry) × (Map.get service_key (handle_all number updates one) ≡ some f)
    × IsSameService new_entry f
handle_all-keeps_service_example =
    handle_all-keeps_service number updates service_key one new_entry is_stored

auth_diagnostic :
    storage_service_status_for_test false (some "provider-authentication-failed")
    ≡ StorageServiceStatus.auth_failed
unfolding control
auth_diagnostic = refl

network_diagnostic :
    storage_service_status_for_test false (some "network-down") ≡ StorageServiceStatus.unreachable
unfolding control
network_diagnostic = refl

abbrev idle : DuplicateProtectionStore
idle = record { entries = []; next_promise = 0 }

first_starts : (execute "orders" "k1" "f1" idle).0 ≡ starts 0
unfolding control
first_starts = refl

-- another key fails and the same key is called again in between
execute-once_example :
    (execute "orders" "k1" "f1" (
      run_all
        (executed "orders" "k2" "f9" ∷ threw "orders" "k2" 1 ∷ executed "orders" "k1" "f1" ∷ [])
        (execute "orders" "k1" "f1" idle).1)).0
    ≡ replays 0
execute-once_example =
    execute-once "orders" "k1" "f1" "f1" idle 0
      (executed "orders" "k2" "f9" ∷ threw "orders" "k2" 1 ∷ executed "orders" "k1" "f1" ∷ [])
      first_starts (tt, (refl, (tt, tt)))
