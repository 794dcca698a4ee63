-- ===== src/Jobs/Rows.antt =====
-- The rows of the tables `jobs` and `job_events` (db/schema.ts) and the requests of
-- db/repositories/jobs.ts. A timestamp is its number of milliseconds.
use teamem_server.Prelude.{ℕ, ◌==◌, Bool, Option, String, List, ◌&&◌, str_eq}

pub data JobKind : Type 0 where
  ingest_event ingest_batch compilation : JobKind

pub data JobStatus : Type 0 where
  queued processing completed failed cancelled : JobStatus

pub data JobEventStatus : Type 0 where
  pending compiled skipped failed : JobEventStatus

pub data InitiatorKind : Type 0 where
  credential connector : InitiatorKind

-- A sanitized error, `{code, message}`.
pub record ErrorInfo : Type 0 where
  pub code : String
  pub message : String

pub data EventStatus : Type 0 where
  queued already_active already_compiled not_found : EventStatus

pub record EventResult : Type 0 where
  pub event_id : String
  pub status : EventStatus

pub data BatchItemStatus : Type 0 where
  accepted rejected duplicate : BatchItemStatus

pub record BatchItemResult : Type 0 where
  pub index : ℕ
  pub status : BatchItemStatus
  pub event_id : Option String
  pub error : Option ErrorInfo

pub record BatchResponse : Type 0 where
  pub request_id : String
  pub batch_job_id : Option String
  pub results : List BatchItemResult

-- The JSON of `result_snapshot`: the counts of a compile job, the results of a request to compile,
-- or the response to a batch.
pub data ResultSnapshot : Type 0 where
  counts : List String → ℕ → ℕ → ℕ → ResultSnapshot
  results : List EventResult → ResultSnapshot
  batch : BatchResponse → ResultSnapshot

pub record JobRow : Type 0 where
  pub id : String
  pub team_id : String
  pub project_id : String
  pub kind : JobKind
  pub status : JobStatus
  pub attempts : ℕ
  pub initiated_by_kind : InitiatorKind
  pub initiated_by_credential_id : Option String
  pub initiated_by_principal_id : Option String
  pub initiated_by_connector : Option String
  pub idempotency_key : Option String
  pub idempotency_request_hash : Option String
  pub result_snapshot : Option ResultSnapshot
  pub event_count : ℕ
  pub error : Option ErrorInfo
  pub created_at : ℕ
  pub started_at : Option ℕ
  pub finished_at : Option ℕ

pub record JobEventRow : Type 0 where
  pub team_id : String
  pub project_id : String
  pub job_id : String
  pub event_id : String
  pub status : JobEventStatus
  pub reason : Option String
  pub error : Option ErrorInfo
  pub concept_uuids : Option (List String)
  pub updated_at : ℕ

-- The two tables that the repository owns.
pub record JobStore : Type 0 where
  pub jobs : List JobRow
  pub job_events : List JobEventRow

pub record CreateJobRequest : Type 0 where
  pub team_id : String
  pub project_id : String
  pub kind : JobKind
  pub initiated_by_kind : InitiatorKind
  pub initiated_by_credential_id : Option String
  pub initiated_by_principal_id : Option String
  pub initiated_by_connector : Option String
  pub idempotency_key : Option String
  pub idempotency_request_hash : Option String
  pub result_snapshot : Option ResultSnapshot
  pub event_count : ℕ

pub record UpsertJobEventRequest : Type 0 where
  pub team_id : String
  pub project_id : String
  pub job_id : String
  pub event_id : String
  pub status : JobEventStatus
  pub reason : Option String
  pub error : Option ErrorInfo
  pub concept_uuids : Option (List String)

abbrev pub kind_index : JobKind → ℕ
kind_index ingest_event = 0
kind_index ingest_batch = 1
kind_index compilation = 2

abbrev pub kind_eq : JobKind → JobKind → Bool
kind_eq a b = kind_index a == kind_index b

abbrev pub status_index : JobStatus → ℕ
status_index queued = 0
status_index processing = 1
status_index completed = 2
status_index failed = 3
status_index cancelled = 4

abbrev pub status_eq : JobStatus → JobStatus → Bool
status_eq a b = status_index a == status_index b

abbrev pub event_status_index : JobEventStatus → ℕ
event_status_index pending = 0
event_status_index compiled = 1
event_status_index skipped = 2
event_status_index failed = 3

abbrev pub event_status_eq : JobEventStatus → JobEventStatus → Bool
event_status_eq a b = event_status_index a == event_status_index b

-- `WHERE id = … AND team_id = … AND project_id = …`, the scope that each statement carries.
abbrev pub in_scope : String → String → String → JobRow → Bool
in_scope team project job r =
    str_eq r.id job && (str_eq r.team_id team && str_eq r.project_id project)
