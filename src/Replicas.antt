-- ===== src/Replicas.antt =====
-- src/runtime-replica-protection.ts: the worker that repairs replicas and deletes expired primaries.
-- The store, the reader and the writer are `Collaborators`: what each replies may depend on the calls
-- made before. `digest` is SHA-256 of bytes, in hexadecimal.
pub mod Errors
pub mod Jobs
pub mod Verify
pub mod Worker
