-- ===== src/Jobs/RetryRoute.antt =====
-- POST /v1/jobs/:id/retry, http/routes/job-retry.ts. The argument `meanwhile`, a function on the
-- store, stands for what others commit between the checks and the reset. A queue takes each message
-- that it is sent.
pub mod Requeued
mod Tests
use Prim.Native.String.{◌++◌}
use teamem_server.Prelude.{
  ℕ, ◌==◌, Bool, true, false, not, ◌||◌, ◌&&◌, Option, none, some, String, List, [], ◌∷◌, Result,
  ok, err, str_eq, length, if◌then◌else◌,
}
use teamem_server.Table.{filter}
use teamem_server.Auth.Scope.{ScopeContext, get_team_id}
use teamem_server.Team.Roles.{
  TeamRole, admin, check_role, HttpError, forbidden, not_found, conflict,
}
use teamem_server.Jobs.Rows.{
  JobKind, JobStatus, queued, processing, completed, failed, cancelled, JobEventStatus, JobRow,
  JobEventRow, JobStore, status_eq, event_status_eq,
}
use teamem_server.Jobs.Lifecycle.{
  RetryMode, only_failed, all, get_job, get_job_events, reset_job_for_retry,
}

-- A message of the queue with the id that it is sent under.
pub record Sent : Type 0 where
  pub message_id : String
  pub job_id : String
  pub team_id : String
  pub project_id : String
  pub kind : JobKind

pub record Backend : Type 0 where
  pub job_store : JobStore
  pub sent : List Sent

-- What `getAuth` knows of the caller.
pub record Caller : Type 0 where
  pub team_role : Option TeamRole
  pub scope : ScopeContext

pub record RetryReply : Type 0 where
  pub id : String
  pub status : JobStatus
  pub mode : RetryMode

-- `parseRetryMode`, on the member `mode` of the body where it is a string.
abbrev pub parse_retry_mode : Option String → RetryMode
parse_retry_mode none = only_failed
parse_retry_mode (some mode) = if str_eq mode "all" then all else only_failed

abbrev pub is_admin : Option TeamRole → Bool
is_admin none = false
is_admin (some role) = check_role role admin

abbrev pub status_text : JobStatus → String
status_text queued = "queued"
status_text processing = "processing"
status_text completed = "completed"
status_text failed = "failed"
status_text cancelled = "cancelled"

abbrev pub is_running : JobStatus → Bool
is_running s = status_eq s queued || status_eq s processing

-- No event of the job failed.
unfoldable pub has_nothing_failed : String → String → String → JobStore → Bool
unfolding filter get_job_events
has_nothing_failed team proj id db =
    length (
      filter (λ (e : JobEventRow). event_status_eq e.status JobEventStatus.failed)
        (get_job_events db team proj id))
    == 0

abbrev is_only_failed : RetryMode → Bool
is_only_failed only_failed = true
is_only_failed all = false

abbrev pub message_for : String → JobRow → Sent
message_for message_id job = record {
  message_id = message_id;
  job_id = job.id;
  team_id = job.team_id;
  project_id = job.project_id;
  kind = job.kind;
}

module _ (has_queue : Bool) (meanwhile : JobStore → JobStore) (message_id : String) (now : ℕ) where
  abbrev pub Retried : Type 0
  Retried = Backend × Result HttpError RetryReply

  -- The reset and the message.
  unfoldable pub reset_and_send : String → String → String → RetryMode → Backend → Retried
  unfolding reset_job_for_retry
  reset_and_send team proj id mode db =
      let reset = reset_job_for_retry now team proj id mode (meanwhile db.job_store) in
      elim reset.1 [
        | none ↦ (
          record db { job_store = reset.0 },
          err (conflict "Job is no longer eligible for retry"),
        )
        | some job ↦ (
          record {
            job_store = reset.0;
            sent = if has_queue then message_for message_id job ∷ db.sent else db.sent;
          },
          ok (record { id = job.id; status = job.status; mode = mode }),
        )
      ]

  -- The checks on the job that was found.
  unfoldable pub retry_row : String → String → JobRow → RetryMode → Backend → Retried
  unfolding has_nothing_failed reset_and_send
  retry_row team id row mode db =
      if is_running row.status
      then (
        db,
        err (conflict ("Job is '" ++ (status_text row.status ++ "' — it's already running"))),
      )
      else if is_only_failed mode && has_nothing_failed team row.project_id id db.job_store
      then (
        db,
        err (
            conflict
              "Job has no failed events to retry — retry with mode 'all' to re-run every event"),
      )
      else reset_and_send team row.project_id id mode db

  unfoldable pub retry_job : Caller → String → Option String → Backend → Retried
  unfolding get_job retry_row
  retry_job caller id body db =
      if not (is_admin caller.team_role)
      then (db, err forbidden)
      else if str_eq id ""
      then (db, err (not_found "Not found"))
      else (elim (get_job db.job_store caller.scope id) [
        | none ↦ (db, err (not_found "Not found"))
        | some row ↦ retry_row (get_team_id caller.scope) id row (parse_retry_mode body) db
      ])
