-- ===== src/Jobs/Tests.antt =====
-- Runs of the job repository, and the theorems at them.
use teamem_server.Prelude.{
  ◌+◌, ◌≡◌, ◌≢◌, str_eq, str_eq_iff, refl, Bool, true, false, none, some, String, List, [], ◌∷◌,
  map, ok, arith, All,
}
use teamem_server.Table.{filter}
use teamem_server.Jobs.Rows.{
  compilation, credential, queued, processing, JobStatus, JobEventStatus, JobRow, JobEventRow,
  JobStore, CreateJobRequest, event_status_eq,
}
use teamem_server.Jobs.Create.{
  Constraint, create_job, find_job_by_idempotency_key, new_row, resolve_existing, truthy,
  find_existing, resolve_existing,
}
use teamem_server.Jobs.Create.Unique.{IsUnique, create_job-IsUnique}
use teamem_server.Jobs.Create.Replay.{find-create_job, create_job-lost_race}
use teamem_server.Jobs.Lifecycle.{
  claim_job, to_failed, only_failed, requeued_row, reset_job_for_retry, get_job_events,
  reclaim_stale_processing_jobs, is_abandoned, interrupted,
}
use teamem_server.Jobs.Lifecycle.Ops.{Op, create, update_status, retry, run_ops}
use teamem_server.Jobs.Lifecycle.Claim.{claim_job-exclusive}
use teamem_server.Jobs.Lifecycle.Retry.{
  claim-reset_job_for_retry, pending-reset_job_for_retry, to_redo,
}
use teamem_server.Jobs.Lifecycle.Timeline.{IsConsistent, run_ops-IsConsistent}
use teamem_server.Jobs.Lifecycle.Sweep.{
  is_reached, reclaim_stale_processing_jobs_complete, reclaim_stale_processing_jobs-outcomes,
}

abbrev request : CreateJobRequest
request = record {
  team_id = "t1";
  project_id = "p1";
  kind = compilation;
  initiated_by_kind = credential;
  initiated_by_credential_id = some "c1";
  initiated_by_principal_id = some "u1";
  initiated_by_connector = none;
  idempotency_key = some "k1";
  idempotency_request_hash = some "h1";
  result_snapshot = none;
  event_count = 2;
}

abbrev no_jobs : JobStore
no_jobs = record { jobs = []; job_events = [] }

abbrev pub job_1 : JobRow
job_1 = new_row "j1" 5 request

abbrev failed_event : JobEventRow
failed_event = record {
  team_id = "t1";
  project_id = "p1";
  job_id = "j1";
  event_id = "evt_1";
  status = JobEventStatus.failed;
  reason = none;
  error = none;
  concept_uuids = none;
  updated_at = 6;
}

abbrev pub compiled_event : JobEventRow
compiled_event = record failed_event { event_id = "evt_2"; status = JobEventStatus.compiled }

abbrev queued_store : JobStore
queued_store = record { jobs = job_1 ∷ []; job_events = failed_event ∷ compiled_event ∷ [] }

abbrev failed_job : JobRow
failed_job = record job_1 {
  status = JobStatus.failed;
  attempts = 1;
  started_at = some 6;
  finished_at = some 7;
}

abbrev pub failed_store : JobStore
failed_store = record queued_store { jobs = failed_job ∷ [] }

abbrev stay : JobStore → JobStore
stay db = db

abbrev named : Constraint → Bool
named c = true

abbrev other_commits : JobStore → JobStore
other_commits db = record db { jobs = record job_1 { id = "j0" } ∷ db.jobs }

find-create_job_example :
    find_job_by_idempotency_key
      (create_job named stay stay "j1" 5 request no_jobs).0
      "t1"
      "p1"
      compilation
      "k1"
    ≡ some job_1
unfolding create_job find_job_by_idempotency_key truthy
find-create_job_example =
    find-create_job named stay stay "j1" 5 request "k1" no_jobs job_1 true refl refl

create_job-lost_race_example :
    create_job named other_commits stay "j1" 9 request no_jobs
    ≡ (other_commits no_jobs, ok (record job_1 { id = "j0" }, false))
unfolding create_job find_job_by_idempotency_key truthy find_existing resolve_existing
create_job-lost_race_example =
    create_job-lost_race named other_commits "j1" 9 request "k1" no_jobs
      (record job_1 { id = "j0" }) (omega arith) refl refl refl refl

no_jobs-IsUnique : IsUnique no_jobs
unfolding filter
no_jobs-IsUnique = record { ids = λ id. omega arith; keys = λ project kind key. omega arith }

create_job-IsUnique_example : IsUnique (create_job named stay stay "j1" 5 request no_jobs).0
create_job-IsUnique_example =
    create_job-IsUnique named stay stay (λ db u. u) (λ db u. u) "j1" 5 request no_jobs
      no_jobs-IsUnique

abbrev fail_and_create : List Op
fail_and_create =
    update_status 7 "t1" "p1" "j1" to_failed none none
    ∷ create "j2" 8 (record request { idempotency_key = none })
    ∷ retry 9 "t1" "p1" "j2" only_failed
    ∷ []

other_id : ◌≢◌ {A = String} "j2" "j1"
other_id e = let h : false ≡ true = (str_eq_iff "j2" "j1").1 e in cc

claim_job-exclusive_example :
    claim_job 9 "t1" "p1" "j1" (run_ops fail_and_create (claim_job 6 "t1" "p1" "j1" queued_store).0)
    ≡ (run_ops fail_and_create (claim_job 6 "t1" "p1" "j1" queued_store).0, none)
claim_job-exclusive_example =
    claim_job-exclusive "t1" "p1" "j1" 6 9 fail_and_create queued_store
      (tt, (other_id, (other_id, tt)))

claim-reset_job_for_retry_example :
    (JobRow.status (requeued_row failed_job) ≡ queued)
    × ((old : JobRow) × (row : JobRow) × (filter
            (λ (r : JobRow). str_eq r.id "j1")
            failed_store.jobs
          ≡ old ∷ [])
        × ((claim_job 9 "t1" "p1" "j1"
              (reset_job_for_retry 8 "t1" "p1" "j1" only_failed failed_store).0).1
            ≡ some row)
        × (row.id ≡ "j1")
        × (row.status ≡ processing)
        × (row.attempts ≡ old.attempts + 1)
        × (row.started_at ≡ some 9)
        × (row.finished_at ≡ none)
        × (row.error ≡ none))
unfolding filter reset_job_for_retry
claim-reset_job_for_retry_example =
    claim-reset_job_for_retry "t1" "p1" "j1" 8 9 only_failed failed_store (requeued_row failed_job)
      (omega arith) refl

pending-reset_job_for_retry_example :
    map
      (λ (e : JobEventRow). e.event_id)
      (filter
        (λ e. event_status_eq e.status JobEventStatus.pending)
        (get_job_events
          (reset_job_for_retry 8 "t1" "p1" "j1" only_failed failed_store).0
          "t1"
          "p1"
          "j1"))
    ≡ map
        (λ (e : JobEventRow). e.event_id)
        (filter (to_redo only_failed) (get_job_events failed_store "t1" "p1" "j1"))
unfolding reset_job_for_retry
pending-reset_job_for_retry_example =
    pending-reset_job_for_retry "t1" "p1" "j1" 8 only_failed failed_store (requeued_row failed_job)
      refl

run_ops-IsConsistent_example : All IsConsistent (run_ops fail_and_create queued_store).jobs
run_ops-IsConsistent_example = run_ops-IsConsistent fail_and_create queued_store (ground arith, tt)

abbrev stale_store : JobStore
stale_store = record queued_store {
  jobs = record failed_job { status = processing; finished_at = none } ∷ [];
}

reclaim_stale_processing_jobs_complete_example :
    reclaim_stale_processing_jobs 100 10 (reclaim_stale_processing_jobs 100 10 stale_store).0
    ≡ ((reclaim_stale_processing_jobs 100 10 stale_store).0, [])
reclaim_stale_processing_jobs_complete_example =
    reclaim_stale_processing_jobs_complete 100 10 stale_store

abbrev swept : JobStore × List JobRow
swept = reclaim_stale_processing_jobs 100 10 stale_store

reclaim_stale_processing_jobs-outcomes_example :
    All
      (λ (j : JobRow).
        (j.status ≡ JobStatus.failed) × (j.finished_at ≡ some 100) × (j.error ≡ some interrupted))
      swept.1
    × (filter (is_abandoned swept.1) swept.0.job_events ≡ [])
    × (filter is_reached swept.0.job_events ≡ filter is_reached stale_store.job_events)
reclaim_stale_processing_jobs-outcomes_example =
    reclaim_stale_processing_jobs-outcomes 100 10 stale_store
