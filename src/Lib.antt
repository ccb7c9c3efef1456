-- ===== src/Lib.antt =====
-- The storage control plane of the repository: which provider a managed app may write to and under
-- which keys, which configuration of a client is in force, who may use it, and the worker that makes
-- image derivatives. The state is kept in memory by the classes modelled here; the same interfaces
-- have implementations over Postgres, which are not modelled.
--
-- The parts:
-- - Domain, Records: the types of src/domain.ts and the codes of src/errors.ts.
-- - Prefix: objectKeyMatchesPattern and InMemoryPrefixAuthorizer of src/prefix-authorizer.ts. A key is
--   the list of its code points.
-- - Capability: src/capability-registry.ts, recordResult, #currentResult and assertReady.
-- - Profile: src/profile-registry.ts and src/fingerprint.ts. `resolve` calls Capability and Prefix as
--   the source does; the digest of the fingerprint is the parameter `payload_digest`.
-- - Integrity: verifyProviderWrite of src/integrity.ts, which calls Prefix.
-- - Config: src/client-storage-configuration.ts. Config.Document has the types, Config.Text the
--   patterns over code points, Config.Metadata assertSafeMetadata, Config.Validation
--   validateConfigurationDraft, Config.State the class's fields, Config.Store its methods on versions
--   and Config.Tokens those on tokens. Config.Store.Requests runs any sequence of calls.
-- - Images: ImageDerivativeApplicationService.processNext of src/image-derivative.ts. Its
--   collaborators return or throw at each call; a run is the list of its calls and its result.
-- - Limiter: createControlLoginAttemptLimiter of src/control-plane-ui-abuse.ts.
-- - Services: the decision functions of src/storage-service.ts and the in-memory repository of
--   src/storage-service-memory.ts.
-- - Duplicates: createInMemoryDuplicateProtectionStore of src/runtime-service.ts, whose calls wait in
--   between: a run is any list of their steps and of calls of clear.
-- - Replicas: the worker of src/runtime-replica-protection.ts, which repairs replicas and deletes
--   expired primaries. Replicas.Jobs has the jobs and the collaborators, Replicas.Verify
--   verifyProviderObject and sourceMirror, Replicas.Worker processRepair, processRetention and the
--   two batches.
-- - Delivery: src/runtime-read-delivery.ts. Delivery.Range is parseSingleByteRange, Delivery.Copies
--   the snapshot and usableCopy, Delivery.Attempt #attempt, Delivery.Coordinator deliver and
--   Delivery.Stream toSafeWebStream, whose run is any list of steps, and each `await` ends a step.
-- - Plan: src/storage-control-plan.ts. Plan has the values and the plan, Plan.Parse the parsers of its
--   parts and Plan.Build buildStorageControlPlan; Number(value) is the parameter `to_number`.
-- - Media: verifyPng of src/runtime-media-verification.ts over the list of the bytes, with the
--   source's limit of 4096 chunks as its count of rounds.
-- - Prelude: lists, tests, results, sorting and the Map of JavaScript as a list of entries in the
--   order of insertion. Tests: the definitions at concrete inputs.
--
-- How the code is read. A method that throws is a Result, and changes nothing, as each test of the
-- source stands before the first write. A time is a number of milliseconds or the text that the code
-- keeps; the current time, random ids and raw tokens are arguments. A number that may be no safe
-- integer is a JsNumber. SHA-256, the lower case of the engine and the decimal text of a number are
-- parameters. Asynchronous methods of the in-memory classes do not wait between their reads and
-- writes, so a sequence of calls is a sequence of requests. Code that calls on others and may fail at
-- each call is a Prelude.Run: it extends the log of the calls made so far, and a reply may depend on
-- that log, so that the others may keep any state. A stream is the list of its chunks, with the
-- error that it ends in, if any. Closing the stream of a replica, and dropping a body of the wrong
-- length, are taken not to throw. The loops are over lists or counted, and the check of metadata is
-- over the tree of the JSON value. Only the printing of a decimal runs on fuel, one more than the
-- number, which the round trip of ranges shows to be enough.
--
-- Not modelled: the Postgres stores, the rest of the HTTP runtime with its sessions and tokens, the
-- issuing of grants, the registry of stored objects, the store of replica jobs, ingest, the provider
-- adapters, the parsing of MP4 and the pages of the control plane. The reader of
-- src/runtime-read-delivery.ts calls the provider's client and is a collaborator here. Of Config, the
-- two listing reads are left out, since they change no state.
pub mod Prelude
pub mod Domain
pub mod Records
pub mod Prefix
pub mod Capability
pub mod Integrity
pub mod Profile
pub mod Config
pub mod Images
pub mod Limiter
pub mod Services
pub mod Duplicates
pub mod Replicas
mod Tests
pub mod Delivery
pub mod Plan
pub mod Media
