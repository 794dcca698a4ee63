-- ===== src/Compile/Worker.antt =====
-- `createCompileJobHandler` of queue/worker.ts: one delivery of a message of the queue.
pub mod Settles
pub mod Keeps
pub mod Redelivery
pub mod Evidence
use teamem_server.Prelude.{
  ℕ, Bool, true, false, ◌&&◌, Option, none, some, String, List, [], ◌∷◌, map, Result, ok, err,
  then_do,
}
use teamem_server.Table.{filter}
use teamem_server.Jobs.Rows.{ErrorInfo, pending, JobRow, JobEventRow, event_status_eq}
use teamem_server.Jobs.Lifecycle.{to_failed, claim_job, get_job_events}
use teamem_server.Concepts.Contract.{is_given}
use teamem_server.Compile.Services.{
  Thrown, llm_error, error, no_error, claim_it, load_outcomes, Llm, Embedder, Clients, HandlerDeps,
  Services, truncated,
}
use teamem_server.Compile.Run.{
  Database, JobRef, set_job_status, no_events_found, handle_compile_job,
}

-- `CompileJobMessage`, each member of which a malformed message can lack.
pub record Message : Type 0 where
  pub job_id : Option String
  pub team_id : Option String
  pub project_id : Option String

abbrev or_empty : Option String → String
or_empty none = ""
or_empty (some s) = s

abbrev pub is_well_formed : Message → Bool
is_well_formed msg = is_given msg.job_id && (is_given msg.team_id && is_given msg.project_id)

abbrev pub job_of : Message → JobRef
job_of msg = record {
  team_id = or_empty msg.team_id;
  project_id = or_empty msg.project_id;
  job_id = or_empty msg.job_id;
}

-- `err instanceof Error ? err.message : String(err)`
abbrev pub raw_message : Thrown → String
raw_message (llm_error kind message) = message
raw_message (error message) = message
raw_message (no_error value) = value

abbrev pub no_llm_provider : ErrorInfo
no_llm_provider = record {
  code = "no_llm_provider";
  message =
      "No LLM provider is configured for this team, so this job could not be compiled. Configure a provider in Settings → LLM, or set a TEAMEM_* provider key, then re-submit the events.";
}

abbrev pub is_pending : JobEventRow → Bool
is_pending e = event_status_eq e.status pending

-- Step 4: the clients of the team, or those that the process was started with.
abbrev pub clients_for : HandlerDeps → String → Result Thrown (Option Clients)
clients_for deps team = elim deps.resolve_llm [
  | some resolve ↦ resolve team
  | none ↦ elim deps.llm [
    | none ↦ ok none
    | some llm ↦ ok (some (record { llm = llm; embedding_client = deps.embedding_client }))
  ]
]

module _ (w : Services) (deps : HandlerDeps) where
  -- `sanitizeError`
  unfoldable pub worker_failure : Thrown → ErrorInfo
  unfolding truncated
  worker_failure t = record {
    code = "worker_failure";
    message = truncated (w.redact (raw_message t));
  }

  unfoldable pub pending_events : JobRef → Database → List String
  unfolding filter get_job_events
  pending_events job db =
      map (λ (e : JobEventRow). e.event_id)
        (filter is_pending (get_job_events db.job_store job.team_id job.project_id job.job_id))

  -- Steps 4 and 5, on the ids of the pending events.
  unfoldable pub compile_pending : JobRef → List String → Database → Database × Result Thrown Unit
  unfolding set_job_status handle_compile_job
  compile_pending job [] db =
      set_job_status w job to_failed (some (some (no_events_found w job "No events found for job")))
        none db
  compile_pending job (id ∷ ids) db = elim (clients_for deps job.team_id) [
    | err t ↦ (db, err t)
    | ok none ↦ set_job_status w job to_failed (some (some no_llm_provider)) none db
    | ok (some clients) ↦ handle_compile_job w job clients (id ∷ ids) db
  ]

  -- The try block.
  unfoldable pub run_claimed : JobRef → Database → Database × Result Thrown Unit
  unfolding pending_events compile_pending
  run_claimed job db = elim (w.outage load_outcomes) [
    | some t ↦ (db, err t)
    | none ↦ compile_pending job (pending_events job db) db
  ]

  -- The catch block: what a second throw of `updateJobStatus` throws is logged and dropped.
  unfoldable pub fail_and_rethrow :
      JobRef → Database × Result Thrown Unit → Database × Result Thrown Unit
  unfolding set_job_status worker_failure
  fail_and_rethrow job p = elim p.1 [
    | ok done ↦ p
    | err t ↦ (
      (set_job_status w job to_failed (some (some (worker_failure t))) none p.0).0,
      err (error (worker_failure t).message),
    )
  ]

  unfoldable pub claimed_database : JobRef → Database → Database
  unfolding claim_job
  claimed_database job db = record db {
    job_store = (claim_job w.now job.team_id job.project_id job.job_id db.job_store).0;
  }

  unfoldable pub deliver_job : JobRef → Database → Database × Result Thrown Unit
  unfolding claimed_database claim_job run_claimed fail_and_rethrow
  deliver_job job db = elim (w.outage claim_it) [
    | some t ↦ (db, err t)
    | none ↦ elim (claim_job w.now job.team_id job.project_id job.job_id db.job_store).1 [
      | none ↦ (claimed_database job db, ok tt)
      | some row ↦ fail_and_rethrow job (run_claimed job (claimed_database job db))
    ]
  ]

  unfoldable pub deliver : Message → Database → Database × Result Thrown Unit
  unfolding deliver_job
  deliver msg db = elim (is_well_formed msg) [
    | false ↦ (db, ok tt)
    | true ↦ deliver_job (job_of msg) db
  ]
