-- ===== src/Config/Store/Requests.antt =====
-- src/client-storage-configuration.ts: a store under any sequence of requests.
use z_s_app.Prelude.{ℕ, String, none, List, [], ◌∷◌, Result, ok, err}
use z_s_app.Config.Document.{ClientStorageEnvironment, ConfigurationDraftDocument}
use z_s_app.Config.State.{ConfigurationError, ConfigurationStore, Answer}
use z_s_app.Config.Store.{
  register_client, create_draft, replace_draft, delete_draft, activate_draft, clone_version,
}

pub data Request : Type 0 where
  register : String → Request
  create : String → ClientStorageEnvironment → ConfigurationDraftDocument → ℕ → String → Request
  replace : String → ClientStorageEnvironment → String → ConfigurationDraftDocument → ℕ → Request
  delete : String → ClientStorageEnvironment → String → Request
  activate : String → ClientStorageEnvironment → String → ℕ → Request
  clone : String → ClientStorageEnvironment → String → ℕ → String → Request

abbrev pub settle : ConfigurationStore → Answer ConfigurationStore → ConfigurationStore
settle s (ok t) = t
settle s (err e) = s

abbrev pub settle_pair {ℓ} :
    {A : Type ℓ}
    → ConfigurationStore
    → Result ConfigurationError (A × ConfigurationStore)
    → ConfigurationStore
settle_pair s (ok (x, t)) = t
settle_pair s (err e) = s

module _ (to_lower_case : List ℕ → List ℕ) where
  -- a request that throws leaves the store as it was
  unfoldable pub handle : Request → ConfigurationStore → ConfigurationStore
  handle (register c) s = settle s (register_client c s)
  handle (create c e d now id) s = settle_pair s (create_draft to_lower_case c e d now none id s)
  handle (replace c e k d now) s = settle_pair s (replace_draft to_lower_case c e k d now s)
  handle (delete c e k) s = settle s (delete_draft to_lower_case c e k s)
  handle (activate c e k now) s = settle_pair s (activate_draft to_lower_case c e k now s)
  handle (clone c e k now id) s = settle_pair s (clone_version to_lower_case c e k now id s)

  unfoldable pub handle_all : List Request → ConfigurationStore → ConfigurationStore
  handle_all [] s = s
  handle_all (r ∷ rest) s = handle_all rest (handle r s)
