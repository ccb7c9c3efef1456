-- ===== src/Config/Tokens/Requests.antt =====
-- src/client-storage-configuration.ts: a store under any sequence of requests for tokens.
use z_s_app.Prelude.{ℕ, String, List, [], ◌∷◌}
use z_s_app.Config.Document.{ClientStorageEnvironment}
use z_s_app.Config.State.{ConfigurationStore}
use z_s_app.Config.Store.Requests.{settle_pair}
use z_s_app.Config.Tokens.{
  CreateIntegrationTokenInput, create_integration_token, rotate_integration_token,
  revoke_integration_token,
}

-- The texts that the source draws at random are the last arguments: the raw token, the new id and, of
-- a rotation, the end of the new token's name.
pub data TokenRequest : Type 0 where
  create : String → CreateIntegrationTokenInput → ℕ → String → String → TokenRequest
  rotate : String → ClientStorageEnvironment → String → ℕ → String → String → String → TokenRequest
  revoke : String → ClientStorageEnvironment → String → ℕ → TokenRequest

module _ (digest : String → String) where
  -- a request that throws leaves the store as it was
  unfoldable pub handle_token : TokenRequest → ConfigurationStore → ConfigurationStore
  handle_token (create c input now raw_token new_id) s =
      settle_pair s (create_integration_token digest c input now raw_token new_id s)
  handle_token (rotate c e id now raw_token new_id suffix) s =
      settle_pair s (rotate_integration_token digest c e id now raw_token new_id suffix s)
  handle_token (revoke c e id now) s = settle_pair s (revoke_integration_token c e id now s)

  unfoldable pub handle_tokens : List TokenRequest → ConfigurationStore → ConfigurationStore
  handle_tokens [] s = s
  handle_tokens (r ∷ rest) s = handle_tokens rest (handle_token r s)
