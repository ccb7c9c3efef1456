-- ===== src/Config/Tokens.antt =====
-- src/client-storage-configuration.ts: the integration tokens of the in-memory store.
-- A raw token, a new id and the eight characters of a rotated token's name are arguments, as the
-- source draws them at random. `digest` is SHA-256 of a text, in hexadecimal.
pub mod Access
pub mod Lifetime
pub mod Issue
pub mod Requests
use z_s_app.Prelude.{
  ℕ, String, Bool, true, false, ◌&&◌, ◌||◌, not, Option, none, some, List, [], ◌∷◌, map, ltb, leb,
  ◌==◌, string_eq, filter, find, any, length, if◌then◌else◌, Result, ok, err, ◌>>=◌, ◌>>◌, fail_if,
}
use z_s_app.Prelude.Map
use z_s_app.Prelude.Map.{Map, values}
use z_s_app.Config.Document.{
  ClientStorageEnvironment, IntegrationTokenScope, client_environment_eq, token_scope_eq,
}
use z_s_app.Config.Text.{is_identifier, is_label}
use z_s_app.Config.State.{
  error, ConfigurationError, TokenStatus, IntegrationTokenMetadata, StoredIntegrationToken,
  ConfigurationStore, Answer,
}
use z_s_app.Config.Store.{assert_client}
use Prim.Native.String.{◌++◌ as joined}

-- `[...new Set(scopes)]`
pub distinct_scopes :
    List IntegrationTokenScope → List IntegrationTokenScope → List IntegrationTokenScope
distinct_scopes seen [] = []
distinct_scopes seen (s ∷ l) = elim (any (λ d. d == s) seen) [
  | true ↦ distinct_scopes seen l
  | false ↦ s ∷ distinct_scopes (s ∷ seen) l
]

-- The last test of the source passes each value that the type allows.
unfoldable pub normalize_integration_token_scopes :
    List IntegrationTokenScope → Answer (List IntegrationTokenScope)
unfolding distinct_scopes
normalize_integration_token_scopes scopes = do
  fail_if (ltb (length scopes) 1 || ltb 3 (length scopes))
      (error 400 "invalid-integration-token-scopes")
  ok (distinct_scopes [] scopes)

abbrev pub is_over : ℕ → Option ℕ → Bool
is_over now none = false
is_over now (some expires_at) = leb expires_at now

abbrev pub status_at : ℕ → TokenStatus → Option ℕ → TokenStatus
status_at now TokenStatus.active expires_at =
    if is_over now expires_at then TokenStatus.expired else TokenStatus.active
status_at now status expires_at = status

unfoldable pub public_token_metadata : IntegrationTokenMetadata → ℕ → IntegrationTokenMetadata
public_token_metadata m now = record m { status = status_at now m.status m.expires_at }

abbrev pub in_environment : String → ClientStorageEnvironment → StoredIntegrationToken → Bool
in_environment client_id environment t =
    t.client_id == client_id && t.metadata.environment == environment

abbrev pub is_token : String → ClientStorageEnvironment → String → StoredIntegrationToken → Bool
is_token client_id environment token_id t =
    in_environment client_id environment t && t.metadata.token_id == token_id

abbrev pub revoked_at : ℕ → StoredIntegrationToken → StoredIntegrationToken
revoked_at now t = record t {
  metadata = record t.metadata {
    status = TokenStatus.revoked;
    revoked_at = some now;
    updated_at = now;
  };
}

pub record CreateIntegrationTokenInput : Type 0 where
  pub environment : ClientStorageEnvironment
  pub token_id : String
  pub display_label : String
  pub scopes : List IntegrationTokenScope
  pub expires_at : Option ℕ

-- what the client is shown once
pub record IntegrationTokenCreationResult : Type 0 where
  pub token : String
  pub metadata : IntegrationTokenMetadata

abbrev Creation : Type 0
Creation = Answer (IntegrationTokenCreationResult × ConfigurationStore)

pub data AuthenticationResult : Type 0 where
  invalid expired revoked scope_denied client_disabled not_configured : AuthenticationResult
  authenticated :
      String → ClientStorageEnvironment → String → List IntegrationTokenScope → AuthenticationResult

abbrev pub lacks : Option IntegrationTokenScope → List IntegrationTokenScope → Bool
lacks none scopes = false
lacks (some s) scopes = not (any (λ t. t == s) scopes)

abbrev pub decide :
    Option IntegrationTokenScope → String → IntegrationTokenMetadata → AuthenticationResult
decide required client_id m = elim m.status [
  | TokenStatus.expired ↦ expired
  | TokenStatus.revoked ↦ revoked
  | TokenStatus.active ↦
      if lacks required m.scopes
      then scope_denied
      else authenticated client_id m.environment m.token_id m.scopes
]

abbrev pub answer_of :
    Option IntegrationTokenScope → ℕ → Option StoredIntegrationToken → AuthenticationResult
answer_of required now none = invalid
answer_of required now (some t) = decide required t.client_id (public_token_metadata t.metadata now)

abbrev pub found_or_missing : Option StoredIntegrationToken → Answer StoredIntegrationToken
found_or_missing none = err (error 404 "integration-token-not-found")
found_or_missing (some t) = ok t

abbrev pub is_active_status : TokenStatus → Bool
is_active_status TokenStatus.active = true
is_active_status _ = false

abbrev pub is_revoked_status : TokenStatus → Bool
is_revoked_status TokenStatus.revoked = true
is_revoked_status _ = false

module _ (digest : String → String) where
  abbrev pub with_token :
      String
      → String
      → IntegrationTokenMetadata
      → Map StoredIntegrationToken
      → Map StoredIntegrationToken
  with_token client_id raw_token m tokens =
      Map.put m.id (record { client_id = client_id; digest = digest raw_token; metadata = m })
        tokens

  unfoldable pub create_integration_token :
      String → CreateIntegrationTokenInput → ℕ → String → String → ConfigurationStore → Creation
  unfolding normalize_integration_token_scopes
  create_integration_token client_id input now raw_token new_id s = do
    assert_client client_id s
    fail_if (not (is_identifier input.token_id)) (error 400 "invalid-integration-token-id")
    fail_if (not (is_label input.display_label)) (error 400 "invalid-integration-token-label")
    scopes ← normalize_integration_token_scopes input.scopes
    fail_if (is_over now input.expires_at) (error 400 "invalid-integration-token-expiry")
    fail_if (any (is_token client_id input.environment input.token_id) (values s.tokens))
        (error 409 "integration-token-id-conflict")
    let metadata : IntegrationTokenMetadata = record {
      id = new_id;
      token_id = input.token_id;
      environment = input.environment;
      display_label = input.display_label;
      scopes = scopes;
      status = TokenStatus.active;
      expires_at = input.expires_at;
      revoked_at = none;
      rotated_from_token_id = none;
      created_at = now;
      updated_at = now;
    }
    ok (
      record { token = raw_token; metadata = metadata },
      record s { tokens = with_token client_id raw_token metadata s.tokens },
    )

  unfoldable pub rotate_integration_token :
      String
      → ClientStorageEnvironment
      → String
      → ℕ
      → String
      → String
      → String
      → ConfigurationStore
      → Creation
  rotate_integration_token client_id environment token_id now raw_token new_id suffix s = do
    assert_client client_id s
    current ← found_or_missing (find (is_token client_id environment token_id) (values s.tokens))
    fail_if
        (not (is_active_status (status_at now current.metadata.status current.metadata.expires_at)))
        (error 409 "integration-token-not-active")
    let others =
        Map.update_first (is_token client_id environment token_id) (revoked_at now) s.tokens
    let metadata : IntegrationTokenMetadata = record {
      id = new_id;
      token_id = joined token_id (joined "-r-" suffix);
      environment = environment;
      display_label = current.metadata.display_label;
      scopes = current.metadata.scopes;
      status = TokenStatus.active;
      expires_at = current.metadata.expires_at;
      revoked_at = none;
      rotated_from_token_id = some token_id;
      created_at = now;
      updated_at = now;
    }
    ok (
      record { token = raw_token; metadata = metadata },
      record s { tokens = with_token client_id raw_token metadata others },
    )

  unfoldable pub authenticate_integration_token :
      String → Option IntegrationTokenScope → ℕ → ConfigurationStore → AuthenticationResult
  unfolding public_token_metadata
  authenticate_integration_token token required now s =
      answer_of required now (find (λ t. t.digest == digest token) (values s.tokens))

abbrev pub revoked_or_kept :
    StoredIntegrationToken
    → Map StoredIntegrationToken
    → ℕ
    → ConfigurationStore
    → IntegrationTokenMetadata × ConfigurationStore
revoked_or_kept current others now s =
    if is_revoked_status current.metadata.status
    then (current.metadata, s)
    else ((revoked_at now current).metadata, record s { tokens = others })

unfoldable pub revoke_integration_token :
    String
    → ClientStorageEnvironment
    → String
    → ℕ
    → ConfigurationStore
    → Answer (IntegrationTokenMetadata × ConfigurationStore)
revoke_integration_token client_id environment token_id now s = do
  assert_client client_id s
  current ← found_or_missing (find (is_token client_id environment token_id) (values s.tokens))
  let others = Map.update_first (is_token client_id environment token_id) (revoked_at now) s.tokens
  ok (revoked_or_kept current others now s)
