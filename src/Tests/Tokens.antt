-- ===== src/Tests/Tokens.antt =====
-- src/client-storage-configuration.ts: the integration tokens, at one token.
use z_s_app.Prelude.{
  ◌≤◌, ◌≡◌, refl, none, some, [], ◌∷◌, String, ok, filter, find, Holds, arith, List,
}
use z_s_app.Prelude.Map
use z_s_app.Prelude.Map.{values}
use z_s_app.Config.Text.{utf16_length, is_space, is_identifier, is_label}
use z_s_app.Config.Document.{ClientStorageEnvironment, IntegrationTokenScope}
use z_s_app.Config.State.{
  TokenStatus, IntegrationTokenMetadata, StoredIntegrationToken, ConfigurationStore,
}
use z_s_app.Config.Tokens.{
  CreateIntegrationTokenInput, normalize_integration_token_scopes, public_token_metadata,
  create_integration_token, rotate_integration_token, revoke_integration_token,
  authenticate_integration_token, authenticated, invalid, scope_denied, expired, is_token,
  revoked_at,
}
use z_s_app.Config.Tokens.Access.{authenticate_integration_token_sound, IsBefore, IsGranted}
use z_s_app.Config.Tokens.Issue.{create_integration_token-authenticated}
use z_s_app.Config.Tokens.Lifetime.{AreFresh, revoke_integration_token-revoked}
use z_s_app.Config.Tokens.Requests.{
  TokenRequest, create, rotate, revoke, handle_token, handle_tokens,
}

-- stands for the digest
abbrev digest : String → String
digest s = s

tokens : Unit {0}
unfolding normalize_integration_token_scopes public_token_metadata create_integration_token
    rotate_integration_token revoke_integration_token authenticate_integration_token utf16_length
    is_space is_identifier is_label filter find Map.get Map.put Map.update_first Map.count
    handle_token handle_tokens
tokens = tt

abbrev shop : ConfigurationStore
shop = record { versions = []; tokens = []; clients = "shop" ∷ [] }

abbrev input : CreateIntegrationTokenInput
input = record {
  environment = ClientStorageEnvironment.dev;
  token_id = "ci";
  display_label = "CI";
  scopes = IntegrationTokenScope.read ∷ IntegrationTokenScope.read ∷ [];
  expires_at = some 100;
}

abbrev metadata : IntegrationTokenMetadata
metadata = record {
  id = "t1";
  token_id = "ci";
  environment = ClientStorageEnvironment.dev;
  display_label = "CI";
  scopes = IntegrationTokenScope.read ∷ [];
  status = TokenStatus.active;
  expires_at = some 100;
  revoked_at = none;
  rotated_from_token_id = none;
  created_at = 10;
  updated_at = 10;
}

abbrev stored : StoredIntegrationToken
stored = record { client_id = "shop"; digest = "zs_it_x"; metadata = metadata }

abbrev with_one : ConfigurationStore
with_one = record { versions = []; tokens = ("t1", stored) ∷ []; clients = "shop" ∷ [] }

creates :
    create_integration_token digest "shop" input 10 "zs_it_x" "t1" shop
    ≡ ok (record { token = "zs_it_x"; metadata = metadata }, with_one)
unfolding tokens
creates = refl

authenticates :
    authenticate_integration_token digest "zs_it_x" (some IntegrationTokenScope.read) 50 with_one
    ≡ authenticated "shop" ClientStorageEnvironment.dev "ci" (IntegrationTokenScope.read ∷ [])
unfolding tokens
authenticates = refl

lacks_scope :
    authenticate_integration_token digest "zs_it_x" (some IntegrationTokenScope.write) 50 with_one
    ≡ scope_denied
unfolding tokens
lacks_scope = refl

is_late : authenticate_integration_token digest "zs_it_x" none 100 with_one ≡ expired
unfolding tokens
is_late = refl

authenticate_integration_token_sound_example :
    (t : StoredIntegrationToken) × Holds (λ x. x ≡ t) (values with_one.tokens)
    × (t.digest ≡ digest "zs_it_x")
    × (t.client_id ≡ "shop")
    × (t.metadata.environment ≡ ClientStorageEnvironment.dev)
    × (t.metadata.token_id ≡ "ci")
    × (t.metadata.scopes ≡ IntegrationTokenScope.read ∷ [])
    × (t.metadata.status ≡ TokenStatus.active)
    × IsBefore 50 t.metadata.expires_at
    × IsGranted (some IntegrationTokenScope.read) (IntegrationTokenScope.read ∷ [])
authenticate_integration_token_sound_example =
    authenticate_integration_token_sound digest "zs_it_x" (some IntegrationTokenScope.read) 50
      with_one "shop" ClientStorageEnvironment.dev "ci" (IntegrationTokenScope.read ∷ [])
      authenticates

abbrev without : ConfigurationStore
without = record {
  versions = [];
  tokens = ("t1", revoked_at 60 stored) ∷ [];
  clients = "shop" ∷ [];
}

revokes :
    revoke_integration_token "shop" ClientStorageEnvironment.dev "ci" 60 with_one
    ≡ ok ((revoked_at 60 stored).metadata, without)
unfolding tokens
revokes = refl

single : Map.count (is_token "shop" ClientStorageEnvironment.dev "ci") with_one.tokens ≤ 1
unfolding tokens
single = omega arith

-- The id is asked for again, which is refused, and a token of another id is created and rotated.
abbrev later_requests : List TokenRequest
later_requests =
    create "shop" input 65 "zs_it_y" "t2"
    ∷ create "shop" (record input { token_id = "cd" }) 66 "zs_it_z" "t3"
    ∷ rotate "shop" ClientStorageEnvironment.dev "cd" 67 "zs_it_w" "t4" "01234567"
    ∷ revoke "shop" ClientStorageEnvironment.dev "ci" 68
    ∷ []

later_requests_fresh : AreFresh digest later_requests without
unfolding tokens
later_requests_fresh = (refl, (refl, ((refl, refl), (tt, tt))))

revoke_integration_token-revoked_example : ¬ (
    authenticate_integration_token digest "zs_it_x" none 70
      (handle_tokens digest later_requests without)
    ≡ authenticated "shop" ClientStorageEnvironment.dev "ci" (IntegrationTokenScope.read ∷ []))
revoke_integration_token-revoked_example =
    revoke_integration_token-revoked digest "shop" ClientStorageEnvironment.dev "ci" 60 with_one
      without (revoked_at 60 stored).metadata later_requests "zs_it_x" none 70
      (IntegrationTokenScope.read ∷ []) single revokes later_requests_fresh

rotated :
    authenticate_integration_token digest "zs_it_w" none 70
      (handle_tokens digest later_requests without)
    ≡ authenticated "shop" ClientStorageEnvironment.dev "cd-r-01234567"
        (IntegrationTokenScope.read ∷ [])
unfolding tokens
rotated = refl

unknown_before : authenticate_integration_token digest "zs_it_x" none 10 shop ≡ invalid
unfolding tokens
unknown_before = refl

create_integration_token-authenticated_example :
    authenticate_integration_token digest "zs_it_x" none 99 with_one
    ≡ authenticated "shop" ClientStorageEnvironment.dev "ci" (IntegrationTokenScope.read ∷ [])
create_integration_token-authenticated_example =
    create_integration_token-authenticated digest "shop" input 10 "zs_it_x" "t1" shop with_one
      (record { token = "zs_it_x"; metadata = metadata }) 99 unknown_before creates (omega arith)
