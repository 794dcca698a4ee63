-- ===== src/Lib.antt =====
-- The server of teamem: how source events become concept pages, and who may see and change a team.
--
-- The repository is a TypeScript monorepo; all of this is about apps/server/src and the contracts of
-- packages/schema/src. An HTTP route or a connector stores events and creates a compile job
-- (`createJob`); the queue delivers the job's message to a worker (`createCompileJobHandler`), which
-- claims the job row (`claimJob`), compiles each pending event with the models
-- (`handleCompileJob`), writes pages (`createConcept`, `mergeIntoConcept`) and outcomes
-- (`upsertJobEvent`), and ends the job (`updateJobStatus`). A retry puts a finished job back
-- (`resetJobForRetry`), and a sweep fails the jobs of dead workers (`reclaimStaleProcessingJobs`).
--
-- The files:
--   Prelude, Prelude/*   shared names, Boolean tests, lists, results and transactions, decimals
--   Table, Table/Unique  a table as a list of rows: SELECT, UPDATE and RETURNING, with their laws
--   Table/Order, Pages   ORDER BY with LIMIT, and the pages of a listing
--   Table/Cursor, Newest cursors (packages/schema/src/common.ts) and listings with the newest first
--   Auth/Scope           auth/scope.ts: the scope of a caller
--   Jobs/Rows            the tables `jobs` and `job_events` of db/schema.ts, requests
--   Jobs/Create          db/repositories/jobs.ts: `createJob`, `findJobByIdempotencyKey`
--   Jobs/Lifecycle       db/repositories/jobs.ts: `getJob`, `claimJob`, `updateJobStatus`,
--                        `resetJobForRetry`, `reclaimStaleProcessingJobs`, `upsertJobEvent`,
--                        `getJobEvents`, `getEventCompilationStatus`
--   Jobs/RetryRoute      http/routes/job-retry.ts: the retry of a job
--   Jobs/Enqueue         queue/enqueue-compilation.ts: `enqueueCompilation`, `isIdConflict`
--   Jobs/Listing         db/repositories/jobs.ts: `listJobs` and its cursors
--   Jobs/Wait            http/wait-for-job.ts: `waitForJob`
--   Ingest/Events        db/repositories/events.ts: `insertEvent`
--   Ingest/One           ingest/ingest-one.ts: `ingestOne`
--   Ingest/Batch         ingest/ingest-batch.ts: `processIngestBatch`
--   Ingest/Compilations  ingest/create-compilation.ts: the route that asks for a compilation
--   Concepts/Rows        the four concept tables of db/schema.ts, inputs
--   Concepts/Contract    packages/schema/src/concept.ts: paths and evidence
--   Concepts/Fingerprint db/repositories/concepts-merge.ts: `evidenceFingerprint`
--   Concepts/Write       db/repositories/concepts-write.ts: `createConcept`
--   Concepts/Merge       db/repositories/concepts-merge.ts: `mergeIntoConcept`
--   Compile/Events       `getEventsByIds` of db/repositories/events.ts
--   Compile/ToConcept    compiler/f1/to-concept.ts: `buildEvidence`, `buildContributors`, `toConcept`
--   Compile/Services     what the compiler calls outside itself; the sanitizers of errors
--   Compile/Candidates   compiler/f1/compile-job.ts: `enrichF2Candidates`
--   Compile/Page         compiler/f1/compile-job.ts: one event to a page, `executeMergeDecision`
--   Compile/Run          compiler/f1/compile-job.ts: `handleCompileJob`
--   Compile/Worker       queue/worker.ts: the handler of a delivery
--   Redact               security/private-tags.ts: `stripPrivateTags`
--   Canonical            security/canonical-json.ts: `canonicalJson`
--   Export/Archive       export/archive.ts: `buildOkfTar`; Reader is a reader of its format
--   Purge                db/repositories/purge.ts: `purgeProjectData`
--   ApiKeys              db/repositories/api-keys.ts, http/routes/keys.ts
--   Team/Roles           auth/rbac.ts and the tables `memberships` and `invites`
--   Team/Members         http/routes/members.ts: change of a role, removal of a member
--   Team/Invites         auth/invites.ts: `createInvite`, `lookupInviteByToken`, `acceptInvite`
-- A module below one of these, such as Jobs/Create/Replay, holds theorems about it, and Tests runs
-- of it on concrete inputs.
--
-- How the code is read. The database is explicit state, a record of tables; a statement is a function
-- on it, and what a statement throws is a value. A transaction that throws leaves the state that it
-- began with. Times are milliseconds since the epoch as natural numbers. A text is a list of
-- characters; where the code counts or slices UTF-16 units, a character stands for a unit. The order
-- in which a SELECT without ORDER BY returns rows is the order of the list, newest first.
-- The only loops of the code that are no walk over a list are the printing of a number, whose fuel
-- is the number's successor and so at least its count of digits, the scan for private tags, whose
-- fuel is the length of the text, of which each pass takes at least one character, and the wait for
-- a job, whose fuel is an argument that a theorem bounds. The reader of archives has the length of
-- the archive as its fuel, and each of its steps takes a block.
--
-- What stands for code outside the models is an argument: the models' answers, the embedding client,
-- recall of candidates, the noise filter, Zod's check of a URL, the message of a driver's error,
-- fresh uuids, the clock, the redaction of secrets in a worker's error, SHA-256, the length of a text
-- in UTF-8, what canonical JSON writes for a number, the text of a cursor, the order of texts in the
-- database, and which statements the database refuses. Theorems hold for every value of these
-- unless a hypothesis says otherwise. Recall (compiler/f2/candidates.ts), the noise filter
-- (compiler/f1/skip-filter.ts) and that redaction are code of the repository that is not yet
-- modelled. Search, the renderer of the export, connectors, sessions,
-- the audit log, the LLM providers, the portal and the command line are not modelled.
pub mod Prelude
pub mod Table
pub mod Auth
pub mod Jobs
pub mod Concepts
pub mod Compile
pub mod Team
pub mod Canonical
pub mod Export
pub mod Purge
pub mod ApiKeys
pub mod Redact
pub mod Ingest
