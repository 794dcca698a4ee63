-- ===== src/Jobs/Enqueue.antt =====
-- queue/enqueue-compilation.ts. `send` is `CompileQueue.send` over pg-boss: the messages that it
-- leaves, and what it throws; `is_id_conflict` is the test of such errors, which Jobs/Enqueue/Conflict models.
pub mod Conflict
pub mod Ready
mod Tests
use teamem_server.Prelude.{
  ℕ, Bool, true, false, Option, none, some, String, List, [], ◌∷◌, Result, ok, err, length,
  if◌then◌else◌,
}
use teamem_server.Jobs.Rows.{
  JobKind, JobEventStatus, InitiatorKind, ResultSnapshot, JobRow, JobStore, CreateJobRequest,
  UpsertJobEventRequest,
}
use teamem_server.Jobs.Create.{Constraint, CreateError, create_job}
use teamem_server.Jobs.Lifecycle.{upsert_job_event}
use teamem_server.Jobs.RetryRoute.{Sent, Backend, message_for}

pub record EnqueueRequest : Type 0 where
  pub team_id : String
  pub project_id : String
  pub kind : JobKind
  pub event_ids : List String
  pub initiated_by_kind : InitiatorKind
  pub initiated_by_credential_id : Option String
  pub initiated_by_principal_id : Option String
  pub initiated_by_connector : Option String
  pub idempotency_key : Option String
  pub idempotency_request_hash : Option String
  pub result_snapshot : Option ResultSnapshot

pub data EnqueueError (E : Type 0) : Type 0 where
  create_failed : CreateError → EnqueueError E
  send_failed : E → EnqueueError E

abbrev pub create_request : EnqueueRequest → CreateJobRequest
create_request req = record {
  team_id = req.team_id;
  project_id = req.project_id;
  kind = req.kind;
  initiated_by_kind = req.initiated_by_kind;
  initiated_by_credential_id = req.initiated_by_credential_id;
  initiated_by_principal_id = req.initiated_by_principal_id;
  initiated_by_connector = req.initiated_by_connector;
  idempotency_key = req.idempotency_key;
  idempotency_request_hash = req.idempotency_request_hash;
  result_snapshot = req.result_snapshot;
  event_count = length req.event_ids;
}

abbrev pub pending_request : EnqueueRequest → String → String → UpsertJobEventRequest
pending_request req job_id event_id = record {
  team_id = req.team_id;
  project_id = req.project_id;
  job_id = job_id;
  event_id = event_id;
  status = JobEventStatus.pending;
  reason = none;
  error = none;
  concept_uuids = none;
}

-- The loop over `req.eventIds`.
unfoldable pub upsert_events : ℕ → EnqueueRequest → String → List String → JobStore → JobStore
unfolding upsert_job_event
upsert_events now req job_id [] db = db
upsert_events now req job_id (ev ∷ evs) db =
    upsert_events now req job_id evs (upsert_job_event now (pending_request req job_id ev) db)

module _ {E : Type 0} (send : Sent → List Sent → List Sent × Option E)
    (is_id_conflict : E → Bool) where
  abbrev pub Enqueued : Type 0
  Enqueued = Backend × Result (EnqueueError E) (String × Bool)

  -- The third step, with its `catch`.
  unfoldable pub send_message : JobRow → Bool → Backend → Enqueued
  send_message job created db =
      let answer = send (message_for job.id job) db.sent in
      let db' : Backend = record db { sent = answer.0 } in
      elim answer.1 [
        | none ↦ (db', ok (job.id, created))
        | some thrown ↦
            if is_id_conflict thrown
            then (db', ok (job.id, created))
            else (db', err (send_failed thrown))
      ]

  module _ (names_constraint : Constraint → Bool)
      (before_insert before_requery : JobStore → JobStore) where
    unfoldable pub enqueue_compilation : String → ℕ → EnqueueRequest → Backend → Enqueued
    unfolding create_job upsert_events send_message
    enqueue_compilation id now req db =
        let result =
          create_job names_constraint before_insert before_requery id now (create_request req)
            db.job_store in
        elim result.1 [
          | err e ↦ (record db { job_store = result.0 }, err (create_failed e))
          | ok (job, created) ↦
              send_message job created
                (record db { job_store = upsert_events now req job.id req.event_ids result.0 })
        ]
