-- ===== src/Ingest/Compilations.antt =====
-- POST /v1/compilations, ingest/create-compilation.ts, after the body is parsed. `hash` is
-- `payloadHash` of the request; others commit only inside of `createJob`.
pub mod Fresh
pub mod Found
pub mod Replay
mod Tests
use teamem_server.Prelude.{
  ℕ, Bool, true, false, not, ◌&&◌, Option, none, some, String, List, [], ◌∷◌, Result, ok, err,
  length, any, str_eq, col_eq, if◌then◌else◌,
}
use teamem_server.Table.{update_where}
use teamem_server.Auth.Scope.{ScopeContext, project, all_projects, get_team_id}
use teamem_server.Jobs.Rows.{
  EventStatus, EventResult, ResultSnapshot, results, compilation, credential, JobStatus, JobRow,
  JobStore, CreateJobRequest, in_scope,
}
use teamem_server.Jobs.Create.{
  Constraint, CreateError, Created, create_job, find_job_by_idempotency_key,
}
use teamem_server.Jobs.Lifecycle.{CompilationStatus, get_event_compilation_status}
use teamem_server.Jobs.RetryRoute.{Sent, Backend}
use teamem_server.Jobs.Enqueue.{
  EnqueueRequest, EnqueueError, create_failed, send_failed, create_request, upsert_events,
  enqueue_compilation,
}
use teamem_server.Compile.Events.{EventRow, get_events_by_ids}

pub record ProjectRow : Type 0 where
  pub id : String
  pub team_id : String

pub record Server : Type 0 where
  pub projects : List ProjectRow
  pub events : List EventRow
  pub backend : Backend

pub record AuthContext : Type 0 where
  pub scope : ScopeContext
  pub credential_id : String
  pub principal_id : Option String

pub record CompilationRequest : Type 0 where
  pub project_id : String
  pub event_ids : List String
  pub idempotency_key : String

pub record CompilationResponse : Type 0 where
  pub compilation_job_id : String
  pub duplicate : Bool
  pub results : List EventResult

pub data CompilationError : Type 0 where
  forbidden not_found conflict internal : CompilationError

-- What the loop makes of one event.
unfoldable pub classify_event : List EventRow → CompilationStatus → String → EventStatus
classify_event found status event_id =
    if not (any (λ (e : EventRow). str_eq e.id event_id) found)
    then EventStatus.not_found
    else if any (λ id. str_eq id event_id) status.active_event_ids
    then EventStatus.already_active
    else if any (λ id. str_eq id event_id) status.compiled_event_ids
    then EventStatus.already_compiled
    else EventStatus.queued

abbrev pub is_queued : EventStatus → Bool
is_queued EventStatus.queued = true
is_queued EventStatus.already_active = false
is_queued EventStatus.already_compiled = false
is_queued EventStatus.not_found = false

-- The loop over `req.eventIds`: `results` and `queuedEventIds`.
unfoldable pub classify_events :
    List EventRow → CompilationStatus → List String → List EventResult × List String
classify_events found status [] = ([], [])
classify_events found status (id ∷ ids) =
    let (rest, to_queue) = classify_events found status ids in
    let verdict = classify_event found status id in
    (
      record { event_id = id; status = verdict } ∷ rest,
      if is_queued verdict then id ∷ to_queue else to_queue,
    )

unfoldable pub has_project : String → String → List ProjectRow → Bool
has_project team id projects =
    any (λ (p : ProjectRow). str_eq p.team_id team && str_eq p.id id) projects

-- The check of the scope: the error that it throws, if any.
unfoldable pub scope_error : ScopeContext → String → List ProjectRow → Option CompilationError
unfolding has_project
scope_error (project team proj) id projects = if str_eq id proj then none else some forbidden
scope_error (all_projects team) id projects =
    if has_project team id projects then none else some not_found

-- `snapshot?.results ?? []`
abbrev pub results_of : Option ResultSnapshot → List EventResult
results_of (some (results rs)) = rs
results_of (some (ResultSnapshot.counts ids a b c)) = []
results_of (some (ResultSnapshot.batch r)) = []
results_of none = []

abbrev pub enqueue_request :
    AuthContext → CompilationRequest → String → List EventResult → List String → EnqueueRequest
enqueue_request auth req hash rs ids = record {
  team_id = get_team_id auth.scope;
  project_id = req.project_id;
  kind = compilation;
  event_ids = ids;
  initiated_by_kind = credential;
  initiated_by_credential_id = some auth.credential_id;
  initiated_by_principal_id = auth.principal_id;
  initiated_by_connector = none;
  idempotency_key = some req.idempotency_key;
  idempotency_request_hash = some hash;
  result_snapshot = some (results rs);
}

-- A conflict of the repository is one of the route, and any other error is internal.
abbrev pub rejected : CreateError → CompilationError
rejected (CreateError.idempotency_conflict id) = conflict
rejected (CreateError.event_count_too_small n) = internal
rejected CreateError.existing_not_found = internal
rejected (CreateError.db_error c) = internal

abbrev pub done_row : ℕ → JobRow → JobRow
done_row now r = record r { status = JobStatus.completed; finished_at = some now }

abbrev pub Placed : Type 0
Placed = Backend × Result CompilationError String

-- `create_all_settled` is the branch with no event to compile, `create_without_queue` the one
-- without a queue.
module _ (names_constraint : Constraint → Bool)
    (before_insert before_requery : JobStore → JobStore) where
  unfoldable pub create_all_settled : String → ℕ → EnqueueRequest → List String → Backend → Placed
  unfolding create_job
  create_all_settled id now req all_ids db =
      let result =
        create_job names_constraint before_insert before_requery id now
          (record (create_request req) { event_count = length all_ids }) db.job_store in
      elim result.1 [
        | err e ↦ (record db { job_store = result.0 }, err (rejected e))
        | ok (job, created) ↦ (
          record db {
            job_store =
                if created
                then record result.0 {
                  jobs =
                      update_where (in_scope req.team_id req.project_id job.id) (done_row now)
                        result.0.jobs;
                }
                else result.0;
          },
          ok job.id,
        )
      ]

  unfoldable pub create_without_queue : String → ℕ → EnqueueRequest → Backend → Placed
  unfolding create_job upsert_events
  create_without_queue id now req db =
      let result =
        create_job names_constraint before_insert before_requery id now (create_request req)
          db.job_store in
      elim result.1 [
        | err e ↦ (record db { job_store = result.0 }, err (rejected e))
        | ok (job, created) ↦ (
          record db { job_store = upsert_events now req job.id req.event_ids result.0 },
          ok job.id,
        )
      ]

  module _ {E : Type 0} (send : Sent → List Sent → List Sent × Option E)
      (is_id_conflict : E → Bool) where
    unfoldable pub create_and_enqueue : String → ℕ → EnqueueRequest → Backend → Placed
    unfolding enqueue_compilation
    create_and_enqueue id now req db =
        let result =
          enqueue_compilation send is_id_conflict names_constraint before_insert before_requery id
            now req db in
        (
          result.0,
          elim result.1 [
            | ok (job_id, created) ↦ ok job_id
            | err (create_failed e) ↦ err (rejected e)
            | err (send_failed thrown) ↦ err internal
          ],
        )

    module _ (has_queue : Bool) (hash : CompilationRequest → String) where
      -- The eighth step.
      unfoldable pub place : String → ℕ → EnqueueRequest → List String → Backend → Placed
      unfolding create_all_settled create_without_queue create_and_enqueue
      place id now req all_ids db = elim req.event_ids [
        | [] ↦ create_all_settled id now req all_ids db
        | e ∷ es ↦
            if has_queue
            then create_and_enqueue id now req db
            else create_without_queue id now req db
      ]

      abbrev pub Posted : Type 0
      Posted = Server × Result CompilationError CompilationResponse

      abbrev pub reply_for : Server → List EventResult → Placed → Posted
      reply_for db rs placed = (
        record db { backend = placed.0 },
        elim placed.1 [
          | err e ↦ err e
          | ok id ↦ ok (record { compilation_job_id = id; duplicate = false; results = rs })
        ],
      )

      unfoldable pub compile_new : String → ℕ → AuthContext → CompilationRequest → Server → Posted
      unfolding get_events_by_ids get_event_compilation_status classify_events place
      compile_new id now auth req db =
          let team = get_team_id auth.scope in
          let found = get_events_by_ids db.events team req.project_id req.event_ids in
          let status =
            get_event_compilation_status db.backend.job_store team req.project_id req.event_ids in
          let (rs, ids) = classify_events found status req.event_ids in
          reply_for db rs
            (place id now (enqueue_request auth req (hash req) rs ids) req.event_ids db.backend)

      -- The answer from a job that has the key.
      unfoldable pub replay :
          CompilationRequest → JobRow → Result CompilationError CompilationResponse
      replay req existing =
          if col_eq existing.idempotency_request_hash (hash req)
          then ok (record {
            compilation_job_id = existing.id;
            duplicate = true;
            results = results_of existing.result_snapshot;
          })
          else err conflict

      unfoldable pub post_compilations_handler :
          String → ℕ → AuthContext → CompilationRequest → Server → Posted
      unfolding scope_error find_job_by_idempotency_key replay compile_new
      post_compilations_handler id now auth req db =
          elim (scope_error auth.scope req.project_id db.projects) [
            | some e ↦ (db, err e)
            | none ↦
                elim (find_job_by_idempotency_key db.backend.job_store (get_team_id auth.scope)
                  req.project_id compilation req.idempotency_key) [
                    | some existing ↦ (db, replay req existing)
                    | none ↦ compile_new id now auth req db
                  ]
          ]
