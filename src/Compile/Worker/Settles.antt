-- ===== src/Compile/Worker/Settles.antt =====
-- About the job that a delivery claims.
use teamem_server.Prelude.{
  ◌≡◌, refl, inl, inr, Bool, true, false, Option, none, some, String, List, [], ◌∷◌, Result, ok,
  err-ne-ok, Result-cases, Option-cases, List-cases, Bool-cases, then_do, then_do-returned, All,
}
use teamem_server.Table.{filter, All-filter_updated}
use teamem_server.Jobs.Rows.{
  ErrorInfo, ResultSnapshot, JobStatus, queued, processing, JobRow, in_scope,
}
use teamem_server.Jobs.Lifecycle.{
  NextStatus, to_processing, to_completed, to_failed, job_status, updated_row, update_job_status,
  claim_job,
}
use teamem_server.Compile.Events.{EventRow, get_events_by_ids}
use teamem_server.Compile.Services.{
  Thrown, claim_it, load_outcomes, load_events, set_status, Clients, HandlerDeps, Services,
}
use teamem_server.Compile.Run.{
  Database, JobRef, Tally, empty_tally, set_job_status, compile_events, all_failed,
  all_events_failed, snapshot_of, no_events_found, finish, run_events, handle_compile_job,
}
use teamem_server.Compile.Worker.{
  Message, is_well_formed, job_of, clients_for, no_llm_provider, worker_failure, pending_events,
  compile_pending, run_claimed, fail_and_rethrow, claimed_database, deliver_job, deliver,
}

abbrev pub is_terminal : JobStatus → Bool
is_terminal queued = false
is_terminal processing = false
is_terminal _ = true

-- Each row of the job has a terminal status.
abbrev pub IsSettled : JobRef → Database → Type 0
IsSettled job db =
    All (λ (r : JobRow). is_terminal r.status ≡ true)
      (filter (in_scope job.team_id job.project_id job.job_id) db.job_store.jobs)

module _ (w : Services) (job : JobRef) where
  set_job_status-settles :
      (status : NextStatus) (e : Option (Option ErrorInfo)) (n : Option (Option ResultSnapshot))
      (db : Database)
      → is_terminal (job_status status) ≡ true
      → (set_job_status w job status e n db).1 ≡ ok tt
      → IsSettled job (set_job_status w job status e n db).0
  unfolding set_job_status update_job_status
  set_job_status-settles status e n db terminal h =
      elim (Option-cases (w.outage (set_status status))) [
        | inl up ↦
            rw (up, set_job_status)
              (All-filter_updated (in_scope job.team_id job.project_id job.job_id)
                (updated_row w.now status e n) (λ r. is_terminal r.status ≡ true) (λ r. terminal)
                db.job_store.jobs)
        | inr (t, down) ↦ absurd (err-ne-ok (rw (down, set_job_status) at h))
      ]

  finish-settles :
      (t : Tally) (db : Database)
      → (finish w job t db).1 ≡ ok tt
      → IsSettled job (finish w job t db).0
  unfolding finish
  finish-settles t db h = elim (Bool-cases (all_failed w job t)) [
    | inl all ↦ rw all (
        set_job_status-settles to_failed (some (some (all_events_failed w job t.failed_count)))
          (some (some (snapshot_of w job t))) db refl (rw all at h))
    | inr some_done ↦ rw some_done (
        set_job_status-settles to_completed none (some (some (snapshot_of w job t))) db refl
          (rw some_done at h))
  ]

  run_events-settles :
      (clients : Clients) (es : List EventRow) (db : Database)
      → (run_events w job clients es db).1 ≡ ok tt
      → IsSettled job (run_events w job clients es db).0
  unfolding run_events
  run_events-settles clients es db h =
      let started = set_job_status w job to_processing none none db in
      let (done, ready, same) =
        then_do-returned started
          (λ done s. then_do (compile_events w job clients es empty_tally s) (finish w job)) tt h in
      let (tally, ran, ends) =
        then_do-returned (compile_events w job clients es empty_tally started.0) (finish w job) tt
          (rw same at h) in
      rw same (rw ends (finish-settles tally _ (rw ends at (rw same at h))))

  handle-settles :
      (clients : Clients) (ids : List String) (db : Database)
      → (handle_compile_job w job clients ids db).1 ≡ ok tt
      → IsSettled job (handle_compile_job w job clients ids db).0
  unfolding handle_compile_job
  handle-settles clients ids db h = elim (Option-cases (w.outage load_events)) [
    | inr (t, down) ↦ absurd (err-ne-ok (rw (down, handle_compile_job) at h))
    | inl up ↦ elim (List-cases (get_events_by_ids db.events job.team_id job.project_id ids)) [
      | inl missing ↦
          rw (up, handle_compile_job, missing)
            (set_job_status-settles to_failed
              (some (some (no_events_found w job "No events found for the given scope and IDs")))
              none db refl (rw (up, handle_compile_job, missing) at h))
      | inr (e, es, found) ↦
          rw (up, handle_compile_job, found)
            (run_events-settles clients (e ∷ es) db (rw (up, handle_compile_job, found) at h))
    ]
  ]

  module _ (deps : HandlerDeps) where
    compile_pending-settles :
        (ids : List String) (db : Database)
        → (compile_pending w deps job ids db).1 ≡ ok tt
        → IsSettled job (compile_pending w deps job ids db).0
    unfolding compile_pending
    compile_pending-settles [] db h =
        set_job_status-settles to_failed
          (some (some (no_events_found w job "No events found for job"))) none db refl h
    compile_pending-settles (id ∷ ids) db h = elim (Result-cases (clients_for deps job.team_id)) [
      | inr (t, failed) ↦ absurd (err-ne-ok (rw (failed, compile_pending) at h))
      | inl (found, resolved) ↦ elim (Option-cases found) [
        | inl none_found ↦
            rw (resolved, compile_pending, none_found)
              (set_job_status-settles to_failed (some (some no_llm_provider)) none db refl
                (rw (resolved, compile_pending, none_found) at h))
        | inr (clients, some_found) ↦
            rw (resolved, compile_pending, some_found)
              (handle-settles clients (id ∷ ids) db
                (rw (resolved, compile_pending, some_found) at h))
      ]
    ]

    run_claimed-settles :
        (db : Database)
        → (run_claimed w deps job db).1 ≡ ok tt
        → IsSettled job (run_claimed w deps job db).0
    unfolding run_claimed
    run_claimed-settles db h = elim (Option-cases (w.outage load_outcomes)) [
      | inl up ↦
          rw (up, run_claimed)
            (compile_pending-settles (pending_events w deps job db) db (rw (up, run_claimed) at h))
      | inr (t, down) ↦ absurd (err-ne-ok (rw (down, run_claimed) at h))
    ]

    fail_and_rethrow-settles :
        (p : Database × Result Thrown Unit)
        → w.outage (set_status to_failed) ≡ none
        → (p.1 ≡ ok tt → IsSettled job p.0)
        → IsSettled job (fail_and_rethrow w deps job p).0
    unfolding fail_and_rethrow
    fail_and_rethrow-settles p up settled = elim (Result-cases p.1) [
      | inl (done, returned) ↦ rw (returned, fail_and_rethrow) (settled returned)
      | inr (t, thrown) ↦
          rw (thrown, fail_and_rethrow)
            (set_job_status-settles to_failed (some (some (worker_failure w deps t))) none p.0 refl
              (rw (up, set_job_status) refl))
    ]

    deliver_job-settles :
        (db : Database) (row : JobRow)
        → w.outage claim_it ≡ none
        → w.outage (set_status to_failed) ≡ none
        → (claim_job w.now job.team_id job.project_id job.job_id db.job_store).1 ≡ some row
        → IsSettled job (deliver_job w deps job db).0
    unfolding deliver_job
    deliver_job-settles db row up writes won =
        rw (up, deliver_job, won)
          (fail_and_rethrow-settles (run_claimed w deps job (claimed_database w deps job db)) writes
            (run_claimed-settles (claimed_database w deps job db)))

-- The row that a delivery claims, where it claims one.
abbrev pub claim_of : Services → Message → Database → Option JobRow
claim_of w msg db =
    (claim_job w.now (job_of msg).team_id (job_of msg).project_id (job_of msg).job_id
      db.job_store).1

-- A delivery of a well-formed message that claims its job, where the database takes the claim and
-- the status 'failed', leaves every row of the job with a terminal status: whatever the models, the
-- recall and the team's settings return or throw, and wherever else the database throws.
pub deliver-settles :
    (w : Services) (deps : HandlerDeps) (msg : Message) (db : Database) (row : JobRow)
    → is_well_formed msg ≡ true
    → w.outage claim_it ≡ none
    → w.outage (set_status to_failed) ≡ none
    → claim_of w msg db ≡ some row
    → IsSettled (job_of msg) (deliver w deps msg db).0
unfolding deliver
deliver-settles w deps msg db row well up writes won =
    rw (well, deliver) (deliver_job-settles w (job_of msg) deps db row up writes won)
