-- ===== src/Config.antt =====
-- src/client-storage-configuration.ts: the configurations and the tokens of storage clients.
pub mod Text
pub mod Document
pub mod Metadata
pub mod Validation
pub mod State
pub mod Store
pub mod Tokens
