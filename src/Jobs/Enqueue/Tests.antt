-- ===== src/Jobs/Enqueue/Tests.antt =====
-- Runs of queue/enqueue-compilation.ts, on a queue that keys its messages by their ids.
use teamem_server.Prelude.{
  ◌≡◌, refl, Bool, true, false, Option, none, some, String, List, [], ◌∷◌, any, str_eq_self,
  if◌then◌else◌, Bool-cases, inl, inr,
}
use teamem_server.Table.{filter, update_where}
use teamem_server.Jobs.Rows.{
  compilation, credential, completed, JobEventStatus, JobStore, event_status_eq,
}
use teamem_server.Jobs.Create.{
  Constraint, create_job, find_existing, resolve_existing, find_job_by_idempotency_key, truthy,
  same_hash,
}
use teamem_server.Jobs.Lifecycle.{upsert_job_event, claim_job}
use teamem_server.Jobs.RetryRoute.{Sent, Backend, message_for}
use teamem_server.Jobs.Enqueue.{EnqueueRequest, upsert_events, send_message, enqueue_compilation}
use teamem_server.Concepts.Contract.{codes}
use teamem_server.Jobs.Enqueue.Conflict.{SendError, error, is_id_conflict}
use teamem_server.Jobs.Enqueue.Ready.{IsQueue, IsReady, has_message, enqueue_compilation-IsReady}
use teamem_server.Jobs.Tests.{job_1, compiled_event}

abbrev duplicate_key : SendError
duplicate_key = error (codes "duplicate key value violates unique constraint j1_pkey of job") none

abbrev connection_lost : SendError
connection_lost = error (codes "Connection terminated unexpectedly") none

-- An adapter's error, with the constraint in its cause.
abbrev wrapped : String → SendError
wrapped constraint =
    error (codes "Query failed")
      (some (record { code = some "23505"; constraint = some (codes constraint) }))

conflicts_test :
    (is_id_conflict duplicate_key ≡ true)
    × (is_id_conflict connection_lost ≡ false)
    × (is_id_conflict (wrapped "job_common_pkey") ≡ true)
    × (is_id_conflict (wrapped "job_pk") ≡ true)
    × (is_id_conflict (wrapped "queue_pkey") ≡ false)
unfolding is_id_conflict
conflicts_test = (refl, refl, refl, refl, refl)

abbrev keyed_send : Sent → List Sent → List Sent × Option SendError
keyed_send m q = if has_message m.message_id q then (q, some duplicate_key) else (m ∷ q, none)

keyed_send-IsQueue : IsQueue keyed_send
keyed_send-IsQueue = record {
  accepts = λ m q e. elim (Bool-cases (has_message m.message_id q)) [
    | inl there ↦ rw there there
    | inr missing ↦ rw missing (rw (str_eq_self m.message_id) refl)
  ];
  refuses = λ m q e f. elim (Bool-cases (has_message m.message_id q)) [
    | inl there ↦ inl (rw there there)
    | inr missing ↦ inl (rw missing (rw (str_eq_self m.message_id) refl))
  ];
}

abbrev enqueue_request : EnqueueRequest
enqueue_request = record {
  team_id = "t1";
  project_id = "p1";
  kind = compilation;
  event_ids = "evt_1" ∷ "evt_2" ∷ [];
  initiated_by_kind = credential;
  initiated_by_credential_id = some "c1";
  initiated_by_principal_id = some "u1";
  initiated_by_connector = none;
  idempotency_key = some "k1";
  idempotency_request_hash = some "h1";
  result_snapshot = none;
}

abbrev alone : JobStore → JobStore
alone db = db

abbrev named : Constraint → Bool
named c = true

-- The job has ended, and its second event was compiled.
abbrev ended : Backend
ended = record {
  job_store = record {
    jobs = record job_1 { status = completed; started_at = some 6; finished_at = some 7 } ∷ [];
    job_events = compiled_event ∷ [];
  };
  sent = message_for "j1" job_1 ∷ [];
}

abbrev again : Backend
again =
    (enqueue_compilation keyed_send is_id_conflict named alone alone "j2" 9 enqueue_request ended).0

enqueue_compilation-IsReady_example : IsReady keyed_send "j1" ("evt_1" ∷ "evt_2" ∷ []) again
unfolding enqueue_compilation create_job find_existing resolve_existing find_job_by_idempotency_key
    truthy same_hash send_message is_id_conflict
enqueue_compilation-IsReady_example =
    enqueue_compilation-IsReady keyed_send keyed_send-IsQueue named alone alone "j2" 9
      enqueue_request ended "j1" false refl

-- The replay takes back the outcome of an event that was compiled, while no worker can claim the job.
replay_test :
    (any (λ e. event_status_eq e.status JobEventStatus.compiled) again.job_store.job_events ≡ false)
    × (again.sent ≡ ended.sent)
    × ((claim_job 10 "t1" "p1" "j1" again.job_store).1 ≡ none)
unfolding enqueue_compilation create_job find_existing resolve_existing find_job_by_idempotency_key
    truthy same_hash send_message upsert_events upsert_job_event claim_job update_where filter
    is_id_conflict
replay_test = (refl, refl, refl)
