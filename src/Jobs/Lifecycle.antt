-- ===== src/Jobs/Lifecycle.antt =====
-- The lifecycle of a job in db/repositories/jobs.ts: claim, status updates, retry, the sweep of stale
-- jobs, and the per-event outcomes. The clock is the argument `now`.
pub mod Ops
pub mod Claim
pub mod Retry
pub mod Timeline
pub mod Sweep
use teamem_server.Prelude.{
  ℕ, ◌+◌, ◌-◌, Bool, true, false, ◌&&◌, ◌||◌, Option, none, some, String, List, [], ◌∷◌, map, ltb,
  if◌then◌else◌, str_eq, first, any,
}
use teamem_server.Table.{filter, update_where, returning}
use teamem_server.Auth.Scope.{ScopeContext, project, all_projects, get_team_id}
use teamem_server.Jobs.Rows.{
  ErrorInfo, ResultSnapshot, JobStatus, queued, processing, completed, failed, cancelled,
  JobEventStatus, pending, compiled, JobRow, JobEventRow, JobStore, UpsertJobEventRequest,
  status_eq, event_status_eq, in_scope,
}

-- `getJob`: the job of that id within the caller's team, and within its project for a project scope.
abbrev scope_allows : ScopeContext → JobRow → Bool
scope_allows (project team proj) r = str_eq r.team_id team && str_eq r.project_id proj
scope_allows (all_projects team) r = str_eq r.team_id team

unfoldable pub get_job : JobStore → ScopeContext → String → Option JobRow
unfolding filter
get_job db scope id = first (filter (λ r. str_eq r.id id && scope_allows scope r) db.jobs)

-- `claimJob`
abbrev pub is_claimable : String → String → String → JobRow → Bool
is_claimable team proj id r = in_scope team proj id r && status_eq r.status queued

abbrev pub claimed_row : ℕ → JobRow → JobRow
claimed_row now r = record r {
  status = processing;
  started_at = some now;
  attempts = r.attempts + 1;
}

unfoldable pub claim_job : ℕ → String → String → String → JobStore → JobStore × Option JobRow
unfolding update_where returning
claim_job now team proj id db = (
  record db { jobs = update_where (is_claimable team proj id) (claimed_row now) db.jobs },
  first (returning (is_claimable team proj id) (claimed_row now) db.jobs),
)

-- The statuses that `updateJobStatus` can set.
pub data NextStatus : Type 0 where
  to_processing to_completed to_failed to_cancelled : NextStatus

abbrev pub job_status : NextStatus → JobStatus
job_status to_processing = processing
job_status to_completed = completed
job_status to_failed = failed
job_status to_cancelled = cancelled

abbrev pub start_time : NextStatus → ℕ → Option ℕ → Option ℕ
start_time to_processing now old = some now
start_time to_completed now old = old
start_time to_failed now old = old
start_time to_cancelled now old = old

abbrev pub finish_time : NextStatus → ℕ → Option ℕ → Option ℕ
finish_time to_processing now old = old
finish_time to_completed now old = some now
finish_time to_failed now old = some now
finish_time to_cancelled now old = some now

-- An option of `opts` that is `undefined` leaves its column alone.
abbrev pub given_or {ℓ} : {A : Type ℓ} → Option (Option A) → Option A → Option A
given_or none old = old
given_or (some new) old = new

abbrev pub updated_row :
    ℕ → NextStatus → Option (Option ErrorInfo) → Option (Option ResultSnapshot) → JobRow → JobRow
updated_row now status error snapshot r = record r {
  status = job_status status;
  started_at = start_time status now r.started_at;
  finished_at = finish_time status now r.finished_at;
  error = given_or error r.error;
  result_snapshot = given_or snapshot r.result_snapshot;
}

-- `updateJobStatus`
unfoldable pub update_job_status :
    ℕ
    → String
    → String
    → String
    → NextStatus
    → Option (Option ErrorInfo)
    → Option (Option ResultSnapshot)
    → JobStore
    → JobStore × Option JobRow
unfolding update_where returning
update_job_status now team proj id status error snapshot db = (
  record db {
    jobs = update_where (in_scope team proj id) (updated_row now status error snapshot) db.jobs;
  },
  first (returning (in_scope team proj id) (updated_row now status error snapshot) db.jobs),
)

pub data RetryMode : Type 0 where
  only_failed all : RetryMode

abbrev pub is_retryable : String → String → String → JobRow → Bool
is_retryable team proj id r =
    in_scope team proj id r && (status_eq r.status failed || status_eq r.status completed)

abbrev pub requeued_row : JobRow → JobRow
requeued_row r = record r { status = queued; error = none; started_at = none; finished_at = none }

abbrev pub event_of_job : String → String → String → JobEventRow → Bool
event_of_job team proj id e =
    str_eq e.team_id team && (str_eq e.project_id proj && str_eq e.job_id id)

abbrev pub is_reset_by : RetryMode → String → String → String → JobEventRow → Bool
is_reset_by only_failed team proj id e =
    event_of_job team proj id e && event_status_eq e.status failed
is_reset_by all team proj id e = event_of_job team proj id e

abbrev pub reset_event : ℕ → JobEventRow → JobEventRow
reset_event now e = record e {
  status = pending;
  reason = none;
  error = none;
  concept_uuids = none;
  updated_at = now;
}

-- `resetJobForRetry`
unfoldable pub reset_job_for_retry :
    ℕ → String → String → String → RetryMode → JobStore → JobStore × Option JobRow
unfolding update_where returning
reset_job_for_retry now team proj id mode db =
    let jobs = update_where (is_retryable team proj id) requeued_row db.jobs in
    elim (first (returning (is_retryable team proj id) requeued_row db.jobs)) [
      | none ↦ (record db { jobs = jobs }, none)
      | some job ↦ (
        record db {
          jobs = jobs;
          job_events = update_where (is_reset_by mode team proj id) (reset_event now) db.job_events;
        },
        some job,
      )
    ]

abbrev pub interrupted : ErrorInfo
interrupted = record {
  code = "worker_interrupted";
  message =
      "This job did not finish — the worker processing it was interrupted (e.g. restarted) before it could complete. Retry to resume.";
}

abbrev pub started_before : ℕ → Option ℕ → Bool
started_before cutoff none = false
started_before cutoff (some t) = ltb t cutoff

abbrev pub is_stale : ℕ → JobRow → Bool
is_stale cutoff r = status_eq r.status processing && started_before cutoff r.started_at

abbrev pub reclaimed_row : ℕ → JobRow → JobRow
reclaimed_row now r = record r { status = failed; error = some interrupted; finished_at = some now }

abbrev pub is_abandoned : List JobRow → JobEventRow → Bool
is_abandoned reclaimed e =
    any (λ (j : JobRow). str_eq e.job_id j.id) reclaimed && event_status_eq e.status pending

abbrev pub abandoned_event : ℕ → JobEventRow → JobEventRow
abandoned_event now e = record e { status = failed; error = some interrupted; updated_at = now }

-- `reclaimStaleProcessingJobs`. A cutoff before the epoch selects nothing, and neither does 0.
unfoldable pub reclaim_stale_processing_jobs : ℕ → ℕ → JobStore → JobStore × List JobRow
unfolding update_where returning
reclaim_stale_processing_jobs now stale_after_ms db =
    let jobs = update_where (is_stale (now - stale_after_ms)) (reclaimed_row now) db.jobs in
    elim (returning (is_stale (now - stale_after_ms)) (reclaimed_row now) db.jobs) [
      | [] ↦ (record db { jobs = jobs }, [])
      | j ∷ js ↦ (
        record db {
          jobs = jobs;
          job_events = update_where (is_abandoned (j ∷ js)) (abandoned_event now) db.job_events;
        },
        j ∷ js,
      )
    ]

-- `upsertJobEvent`, on the primary key (job_id, event_id).
abbrev pub same_event : String → String → JobEventRow → Bool
same_event job event e = str_eq e.job_id job && str_eq e.event_id event

abbrev pub overwritten : ℕ → UpsertJobEventRequest → JobEventRow → JobEventRow
overwritten now req e = record e {
  status = req.status;
  reason = req.reason;
  error = req.error;
  concept_uuids = req.concept_uuids;
  updated_at = now;
}

abbrev pub new_event_row : ℕ → UpsertJobEventRequest → JobEventRow
new_event_row now req = record {
  team_id = req.team_id;
  project_id = req.project_id;
  job_id = req.job_id;
  event_id = req.event_id;
  status = req.status;
  reason = req.reason;
  error = req.error;
  concept_uuids = req.concept_uuids;
  updated_at = now;
}

unfoldable pub upsert_job_event : ℕ → UpsertJobEventRequest → JobStore → JobStore
unfolding update_where
upsert_job_event now req db = record db {
  job_events =
      if any (same_event req.job_id req.event_id) db.job_events
      then update_where (same_event req.job_id req.event_id) (overwritten now req) db.job_events
      else new_event_row now req ∷ db.job_events;
}

-- `getJobEvents`; the order by event id is left open.
unfoldable pub get_job_events : JobStore → String → String → String → List JobEventRow
unfolding filter
get_job_events db team proj id = filter (event_of_job team proj id) db.job_events

abbrev pub is_requested : String → String → List String → JobEventRow → Bool
is_requested team proj ids e =
    str_eq e.team_id team && (str_eq e.project_id proj && any (λ id. str_eq e.event_id id) ids)

-- The inner join of an outcome with its job, where the job is not finished.
abbrev pub is_active_job : JobEventRow → JobRow → Bool
is_active_job e j =
    str_eq e.job_id j.id
    && (str_eq e.team_id j.team_id
        && (str_eq e.project_id j.project_id
            && (status_eq j.status queued || status_eq j.status processing)))

pub record CompilationStatus : Type 0 where
  pub active_event_ids : List String
  pub compiled_event_ids : List String

-- `getEventCompilationStatus`; the two sets are lists, read through membership.
unfoldable pub get_event_compilation_status :
    JobStore → String → String → List String → CompilationStatus
unfolding filter
get_event_compilation_status db team proj ids = record {
  active_event_ids =
      map (λ (e : JobEventRow). e.event_id)
        (filter (λ e. is_requested team proj ids e && any (is_active_job e) db.jobs) db.job_events);
  compiled_event_ids =
      map (λ (e : JobEventRow). e.event_id)
        (filter (λ e. is_requested team proj ids e && event_status_eq e.status compiled)
          db.job_events);
}
