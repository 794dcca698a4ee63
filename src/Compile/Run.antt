-- ===== src/Compile/Run.antt =====
-- `handleCompileJob` of compiler/f1/compile-job.ts, from the outcome of one event to the whole job.
pub mod Keeps
pub mod Count
pub mod Outcomes
use Prim.Native.String.{◌++◌ as ◌+++◌}
use teamem_server.Prelude.{
  ℕ, ◌+◌, ltb, ◌==◌, Bool, true, false, ◌&&◌, Option, none, some, String, List, [], ◌∷◌, ◌++◌,
  Result, ok, err, then_do, decimal, if◌then◌else◌,
}
use teamem_server.Jobs.Rows.{
  ErrorInfo, ResultSnapshot, counts, JobEventStatus, compiled, skipped, failed, JobStore,
}
use teamem_server.Jobs.Lifecycle.{
  NextStatus, to_processing, to_completed, to_failed, update_job_status, upsert_job_event,
}
use teamem_server.Concepts.Rows.{ConceptStore}
use teamem_server.Compile.Events.{EventRow, get_events_by_ids}
use teamem_server.Compile.Services.{
  Thrown, Call, load_events, set_status, set_outcome, Clients, Services, sanitized,
}
use teamem_server.Compile.Page.{Outcome, skips, compiles, compile_page}

-- The tables of the database that the worker reads and writes; it never writes events.
pub record Database : Type 0 where
  pub job_store : JobStore
  pub concept_store : ConceptStore
  pub events : List EventRow

-- The scope and the id in `CompileJobData`.
pub record JobRef : Type 0 where
  pub team_id : String
  pub project_id : String
  pub job_id : String

-- The counters of the loop.
pub record Tally : Type 0 where
  pub concept_uuids : List String
  pub compiled_count : ℕ
  pub skipped_count : ℕ
  pub failed_count : ℕ

abbrev pub empty_tally : Tally
empty_tally = record { concept_uuids = []; compiled_count = 0; skipped_count = 0; failed_count = 0 }

abbrev pub counted : Outcome → Tally → Tally
counted (skips detail) t = record t { skipped_count = t.skipped_count + 1 }
counted (compiles uuid) t = record t {
  concept_uuids = t.concept_uuids ++ (uuid ∷ []);
  compiled_count = t.compiled_count + 1;
}

abbrev pub counted_failure : Tally → Tally
counted_failure t = record t { failed_count = t.failed_count + 1 }

module _ (w : Services) (job : JobRef) where
  unfoldable pub set_job_status :
      NextStatus
      → Option (Option ErrorInfo)
      → Option (Option ResultSnapshot)
      → Database
      → Database × Result Thrown Unit
  unfolding update_job_status
  set_job_status status error snapshot db = elim (w.outage (set_status status)) [
    | some t ↦ (db, err t)
    | none ↦ (
      record db {
        job_store =
            (update_job_status w.now job.team_id job.project_id job.job_id status error snapshot
              db.job_store).0;
      },
      ok tt,
    )
  ]

  unfoldable pub record_outcome :
      EventRow
      → JobEventStatus
      → Option String
      → Option ErrorInfo
      → Option (List String)
      → Database
      → Database × Result Thrown Unit
  unfolding upsert_job_event
  record_outcome e status reason error uuids db = elim (w.outage (set_outcome e.id status)) [
    | some t ↦ (db, err t)
    | none ↦ (
      record db {
        job_store =
            upsert_job_event w.now
              (record {
                team_id = job.team_id;
                project_id = job.project_id;
                job_id = job.job_id;
                event_id = e.id;
                status = status;
                reason = reason;
                error = error;
                concept_uuids = uuids;
              })
              db.job_store;
      },
      ok tt,
    )
  ]

  -- `recordCompiled`, `recordSkipped` and `recordFailed`; the detail of a skip goes to the log.
  unfoldable pub report : EventRow → Outcome → Database → Database × Result Thrown Unit
  unfolding record_outcome
  report e (skips detail) db = record_outcome e skipped (some "no_knowledge") none none db
  report e (compiles uuid) db = record_outcome e compiled none none (some (uuid ∷ [])) db

  unfoldable pub record_failed : EventRow → Thrown → Database → Database × Result Thrown Unit
  unfolding record_outcome sanitized
  record_failed e t db = record_outcome e failed none (some (sanitized t)) none db

  -- The page of an event, and what the concept tables are then.
  unfoldable pub placed : Clients → EventRow → Database → Database × Result Thrown Outcome
  unfolding compile_page
  placed clients e db =
      let page = compile_page w job.team_id job.project_id clients e db.concept_store in
      (record db { concept_store = page.0 }, page.1)

  abbrev pub reported : EventRow → Outcome → Database → Database × Result Thrown Outcome
  reported e outcome db = then_do (report e outcome db) (λ done after. (after, ok outcome))

  -- The try block of the loop.
  unfoldable pub try_event : Clients → EventRow → Database → Database × Result Thrown Outcome
  unfolding placed then_do report
  try_event clients e db = then_do (placed clients e db) (reported e)

  abbrev pub failure_recorded :
      EventRow → Tally → Thrown → Database → Database × Result Thrown Tally
  failure_recorded e tally t db =
      then_do (record_failed e t db) (λ done after. (after, ok (counted_failure tally)))

  -- One pass of the loop. A throw of `recordFailed` leaves the loop.
  unfoldable pub compile_event :
      Clients → EventRow → Tally → Database → Database × Result Thrown Tally
  unfolding try_event record_failed then_do
  compile_event clients e tally db =
      let tried = try_event clients e db in
      elim tried.1 [
        | ok outcome ↦ (tried.0, ok (counted outcome tally))
        | err t ↦ failure_recorded e tally t tried.0
      ]

  unfoldable pub compile_events :
      Clients → List EventRow → Tally → Database → Database × Result Thrown Tally
  unfolding compile_event
  compile_events clients [] tally db = (db, ok tally)
  compile_events clients (e ∷ es) tally db =
      let first = compile_event clients e tally db in
      elim first.1 [ ok next ↦ compile_events clients es next first.0 | err t ↦ (first.0, err t) ]

  abbrev pub snapshot_of : Tally → ResultSnapshot
  snapshot_of t = counts t.concept_uuids t.compiled_count t.skipped_count t.failed_count

  abbrev pub all_failed : Tally → Bool
  all_failed t = t.compiled_count == 0 && (t.skipped_count == 0 && ltb 0 t.failed_count)

  unfoldable pub all_events_failed : ℕ → ErrorInfo
  unfolding decimal
  all_events_failed n = record {
    code = "all_events_failed";
    message = "All " +++ (decimal n +++ " event(s) failed compilation");
  }

  -- Step 4.
  unfoldable pub finish : Tally → Database → Database × Result Thrown Unit
  unfolding set_job_status all_events_failed
  finish t db =
      if all_failed t
      then set_job_status to_failed (some (some (all_events_failed t.failed_count)))
          (some (some (snapshot_of t))) db
      else set_job_status to_completed none (some (some (snapshot_of t))) db

  abbrev pub no_events_found : String → ErrorInfo
  no_events_found message = record { code = "no_events_found"; message = message }

  abbrev pub after_start :
      Clients → List EventRow → Unit {0} → Database → Database × Result Thrown Unit
  after_start clients es done db = then_do (compile_events clients es empty_tally db) finish

  -- The run on events that were found.
  unfoldable pub run_events : Clients → List EventRow → Database → Database × Result Thrown Unit
  unfolding set_job_status then_do compile_events finish
  run_events clients es db =
      then_do (set_job_status to_processing none none db) (after_start clients es)

  -- `handleCompileJob`
  unfoldable pub handle_compile_job :
      Clients → List String → Database → Database × Result Thrown Unit
  unfolding get_events_by_ids set_job_status run_events
  handle_compile_job clients ids db = elim (w.outage load_events) [
    | some t ↦ (db, err t)
    | none ↦ elim (get_events_by_ids db.events job.team_id job.project_id ids) [
      | [] ↦
          set_job_status to_failed
            (some (some (no_events_found "No events found for the given scope and IDs"))) none db
      | e ∷ es ↦ run_events clients (e ∷ es) db
    ]
  ]
