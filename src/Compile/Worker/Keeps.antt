-- ===== src/Compile/Worker/Keeps.antt =====
-- The rule for what a delivery keeps, from the claim on.
use teamem_server.Prelude.{
  inl, inr, none, some, String, List, [], ◌∷◌, Result-cases, Option-cases, All,
}
use teamem_server.Jobs.Lifecycle.{to_failed}
use teamem_server.Compile.Events.{EventRow, get_events_by_ids}
use teamem_server.Compile.Services.{load_outcomes, HandlerDeps, Services}
use teamem_server.Compile.Run.{Database, JobRef, no_events_found}
use teamem_server.Compile.Run.Keeps.{
  KeptByStatus, KeptByOutcome, KeptByPage, handle_compile_job-keeps,
}
use teamem_server.Compile.Worker.{
  clients_for, no_llm_provider, worker_failure, pending_events, compile_pending, run_claimed,
  fail_and_rethrow,
}

module _ (w : Services) (deps : HandlerDeps) (job : JobRef) (P : Database → Type 0)
    (Q : EventRow → Type 0) (by_outcome : KeptByOutcome w job P Q) (by_page : KeptByPage w job P Q)
    (by_status : KeptByStatus w job P Q) where
  compile_pending-keeps :
      (ids : List String) (db : Database)
      → All Q (get_events_by_ids db.events job.team_id job.project_id ids)
      → P db
      → P (compile_pending w deps job ids db).0
  unfolding compile_pending
  compile_pending-keeps [] db q h =
      by_status to_failed (some (some (no_events_found w job "No events found for job"))) none db h
  compile_pending-keeps (id ∷ ids) db q h = elim (Result-cases (clients_for deps job.team_id)) [
    | inr (t, broken) ↦ rw (broken, compile_pending) h
    | inl (found, resolved) ↦ elim (Option-cases found) [
      | inl nothing ↦
          rw (resolved, compile_pending, nothing)
            (by_status to_failed (some (some no_llm_provider)) none db h)
      | inr (clients, something) ↦
          rw (resolved, compile_pending, something)
            (handle_compile_job-keeps w job P Q by_outcome by_page by_status clients (id ∷ ids) db q
              h)
    ]
  ]

  run_claimed-keeps :
      (db : Database)
      → All Q
          (get_events_by_ids db.events job.team_id job.project_id (pending_events w deps job db))
      → P db
      → P (run_claimed w deps job db).0
  unfolding run_claimed
  run_claimed-keeps db q h = elim (Option-cases (w.outage load_outcomes)) [
    | inl up ↦ rw (up, run_claimed) (compile_pending-keeps (pending_events w deps job db) db q h)
    | inr (t, down) ↦ rw (down, run_claimed) h
  ]

  pub claimed-keeps :
      (db : Database)
      → All Q
          (get_events_by_ids db.events job.team_id job.project_id (pending_events w deps job db))
      → P db
      → P (fail_and_rethrow w deps job (run_claimed w deps job db)).0
  unfolding fail_and_rethrow
  claimed-keeps db q h =
      let p = run_claimed w deps job db in
      elim (Result-cases p.1) [
        | inl (done, returned) ↦ rw (returned, fail_and_rethrow) (run_claimed-keeps db q h)
        | inr (t, thrown) ↦
            rw (thrown, fail_and_rethrow)
              (by_status to_failed (some (some (worker_failure w deps t))) none p.0
                (run_claimed-keeps db q h))
      ]
