-- ===== src/Jobs/Create.antt =====
-- `createJob` and `findJobByIdempotencyKey` of db/repositories/jobs.ts. Two arguments, functions on
-- the store, stand for what other callers commit between the statements of one call.
pub mod Unique
pub mod Replay
pub mod Conflict
pub mod Alone
use teamem_server.Prelude.{
  ℕ, ◌+◌, Bool, true, false, ◌&&◌, Option, none, some, String, List, ◌∷◌, Result, ok, err, ltb,
  if◌then◌else◌, str_eq, col_eq, first, any,
}
use teamem_server.Table.{filter}
use teamem_server.Jobs.Rows.{JobKind, JobRow, JobStore, CreateJobRequest, kind_eq, queued}

-- The constraints of the table `jobs` that an INSERT may violate.
pub data Constraint : Type 0 where
  jobs_pkey jobs_idempotency_uq : Constraint

-- What `createJob` throws: `IdempotencyConflictError` with the existing id, or another error.
pub data CreateError : Type 0 where
  event_count_too_small : ℕ → CreateError
  idempotency_conflict : String → CreateError
  existing_not_found : CreateError
  db_error : Constraint → CreateError

-- A string that JavaScript's `if` lets through: neither null nor empty.
unfoldable pub truthy : Option String → Option String
truthy none = none
truthy (some s) = if str_eq s "" then none else some s

abbrev pub has_identity : String → String → JobKind → String → JobRow → Bool
has_identity team project kind key r =
    str_eq r.team_id team
    && (str_eq r.project_id project && (kind_eq r.kind kind && col_eq r.idempotency_key key))

unfoldable pub find_job_by_idempotency_key :
    JobStore → String → String → JobKind → String → Option JobRow
unfolding filter
find_job_by_idempotency_key db team project kind key =
    first (filter (has_identity team project kind key) db.jobs)

-- `req.idempotencyRequestHash && existing.idempotencyRequestHash === req.idempotencyRequestHash`
unfoldable pub same_hash : Option String → Option String → Bool
same_hash none existing = false
same_hash (some h) existing = if str_eq h "" then false else col_eq existing h

-- The index `jobs_idempotency_uq` is on (project_id, kind, idempotency_key), NULL keys left out.
abbrev pub same_index_entry : JobRow → JobRow → Bool
same_index_entry new r = elim new.idempotency_key [
  | none ↦ false
  | some key ↦
      str_eq r.project_id new.project_id
      && (kind_eq r.kind new.kind && col_eq r.idempotency_key key)
]

unfoldable pub insert_job : JobRow → JobStore → Result Constraint JobStore
insert_job row db =
    if any (λ r. str_eq r.id row.id) db.jobs
    then err jobs_pkey
    else if any (same_index_entry row) db.jobs
    then err jobs_idempotency_uq
    else ok (record db { jobs = row ∷ db.jobs })

abbrev pub new_row : String → ℕ → CreateJobRequest → JobRow
new_row id now req = record {
  id = id;
  team_id = req.team_id;
  project_id = req.project_id;
  kind = req.kind;
  status = queued;
  attempts = 0;
  initiated_by_kind = req.initiated_by_kind;
  initiated_by_credential_id = req.initiated_by_credential_id;
  initiated_by_principal_id = req.initiated_by_principal_id;
  initiated_by_connector = req.initiated_by_connector;
  idempotency_key = req.idempotency_key;
  idempotency_request_hash = req.idempotency_request_hash;
  result_snapshot = req.result_snapshot;
  event_count = req.event_count;
  error = none;
  created_at = now;
  started_at = none;
  finished_at = none;
}

abbrev pub Created : Type 0
Created = Result CreateError (JobRow × Bool)

-- An existing row with the key: a replay, or a conflict.
unfoldable pub resolve_existing : CreateJobRequest → JobRow → Created
unfolding same_hash
resolve_existing req existing =
    if same_hash req.idempotency_request_hash existing.idempotency_request_hash
    then ok (existing, false)
    else err (idempotency_conflict existing.id)

-- The lookup under the key of a request, where the key is truthy.
unfoldable pub find_existing : CreateJobRequest → JobStore → Option JobRow
unfolding truthy find_job_by_idempotency_key
find_existing req db = elim (truthy req.idempotency_key) [
  | none ↦ none
  | some key ↦ find_job_by_idempotency_key db req.team_id req.project_id req.kind key
]

-- `names_constraint`: whether the message of the driver's error holds the constraint's name.
module _ (names_constraint : Constraint → Bool) where
  -- The `catch` of the insert, on the violated constraint.
  unfoldable pub recover : CreateJobRequest → Constraint → JobStore → Created
  unfolding truthy find_job_by_idempotency_key resolve_existing
  recover req jobs_pkey db = err (db_error jobs_pkey)
  recover req jobs_idempotency_uq db =
      if names_constraint jobs_idempotency_uq
      then (elim (truthy req.idempotency_key) [
        | none ↦ err (db_error jobs_idempotency_uq)
        | some key ↦ elim (find_job_by_idempotency_key db req.team_id req.project_id req.kind key) [
          | none ↦ err existing_not_found
          | some existing ↦ resolve_existing req existing
        ]
      ])
      else err (db_error jobs_idempotency_uq)

  module _ (before_insert before_requery : JobStore → JobStore) where
    unfoldable pub insert_or_recover : String → ℕ → CreateJobRequest → JobStore → JobStore × Created
    unfolding insert_job recover
    insert_or_recover id now req db = elim (insert_job (new_row id now req) db) [
      | ok db' ↦ (db', ok (new_row id now req, true))
      | err violated ↦ (before_requery db, recover req violated (before_requery db))
    ]

    unfoldable pub create_job : String → ℕ → CreateJobRequest → JobStore → JobStore × Created
    unfolding find_existing resolve_existing insert_or_recover
    create_job id now req db =
        if ltb req.event_count 1
        then (db, err (event_count_too_small req.event_count))
        else (elim (find_existing req db) [
          | some existing ↦ (db, resolve_existing req existing)
          | none ↦ insert_or_recover id now req (before_insert db)
        ])
