-- ===== src/Config/State.antt =====
-- src/client-storage-configuration.ts: the state of the in-memory store.
use z_s_app.Prelude.{ℕ, String, Option, List, Result}
use z_s_app.Prelude.Map.{Map}
use z_s_app.Config.Document.{
  ClientStorageEnvironment, IntegrationTokenScope, ConfigurationVersionState,
  ConfigurationValidationState, ConfigurationDraftDocument,
}
use z_s_app.Config.Validation.{ValidationError}

-- ClientStorageConfigurationError
pub record ConfigurationError : Type 0 where
  pub status : ℕ
  pub code : String

abbrev pub error : ℕ → String → ConfigurationError
error status code = record { status = status; code = code }

pub record ConfigurationVersionSnapshot : Type 0 where
  pub id : String
  pub environment : ClientStorageEnvironment
  pub version_number : ℕ
  pub state : ConfigurationVersionState
  pub validation_state : ConfigurationValidationState
  pub validation_errors : List ValidationError
  pub cloned_from_version_id : Option String
  pub activated_at : Option ℕ
  pub superseded_at : Option ℕ
  pub created_at : ℕ
  pub updated_at : ℕ
  pub document : ConfigurationDraftDocument

pub record StoredVersion : Type 0 where
  pub client_id : String
  pub snapshot : ConfigurationVersionSnapshot

pub data TokenStatus : Type 0 where
  active revoked expired : TokenStatus

pub record IntegrationTokenMetadata : Type 0 where
  pub id : String
  pub token_id : String
  pub environment : ClientStorageEnvironment
  pub display_label : String
  pub scopes : List IntegrationTokenScope
  pub status : TokenStatus
  pub expires_at : Option ℕ
  pub revoked_at : Option ℕ
  pub rotated_from_token_id : Option String
  pub created_at : ℕ
  pub updated_at : ℕ

pub record StoredIntegrationToken : Type 0 where
  pub client_id : String
  pub digest : String
  pub metadata : IntegrationTokenMetadata

pub record ConfigurationStore : Type 0 where
  pub versions : Map StoredVersion
  pub tokens : Map StoredIntegrationToken
  pub clients : List String

abbrev pub Answer : Type 0 → Type 0
Answer A = Result ConfigurationError A
