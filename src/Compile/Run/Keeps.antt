-- ===== src/Compile/Run/Keeps.antt =====
-- The rule for what a run of `handleCompileJob` keeps: a property that its three kinds of writes keep.
use teamem_server.Prelude.{
  ◌≡◌, refl, inl, inr, false, Option, none, some, String, List, [], ◌∷◌, ok, Result-cases,
  Option-cases, Bool-cases, List-cases, then_do-keeps, All,
}
use teamem_server.Jobs.Rows.{
  JobEventStatus, pending, compiled, skipped, failed, ErrorInfo, ResultSnapshot, event_status_eq,
}
use teamem_server.Jobs.Lifecycle.{NextStatus, to_processing, to_completed, to_failed}
use teamem_server.Compile.Events.{EventRow, get_events_by_ids}
use teamem_server.Compile.Services.{Thrown, load_events, Clients, Services, sanitized}
use teamem_server.Compile.Page.{Outcome, skips, compiles}
use teamem_server.Compile.Run.{
  Database, JobRef, Tally, empty_tally, counted_failure, set_job_status, record_outcome, report,
  record_failed, placed, reported, try_event, compile_event, compile_events, all_failed,
  all_events_failed, snapshot_of, no_events_found, finish, after_start, run_events,
  handle_compile_job,
}

module _ (w : Services) (job : JobRef) (P : Database → Type 0) (Q : EventRow → Type 0) where
  -- The writes: a status of the job, an outcome of an event of `Q`, and a page.
  abbrev pub KeptByStatus : Type 0
  KeptByStatus =
      (s : NextStatus) (er : Option (Option ErrorInfo)) (n : Option (Option ResultSnapshot))
      (db : Database)
      → P db
      → P (set_job_status w job s er n db).0

  abbrev pub KeptByOutcome : Type 0
  KeptByOutcome =
      (e : EventRow) (s : JobEventStatus) (reason : Option String) (er : Option ErrorInfo)
      (uuids : Option (List String)) (db : Database)
      → Q e
      → event_status_eq s pending ≡ false
      → P db
      → P (record_outcome w job e s reason er uuids db).0

  abbrev pub KeptByPage : Type 0
  KeptByPage =
      (clients : Clients) (e : EventRow) (db : Database) → P db → P (placed w job clients e db).0

  module _ (by_outcome : KeptByOutcome) where
    pub report-keeps :
        (e : EventRow) (o : Outcome) (db : Database) → Q e → P db → P (report w job e o db).0
    unfolding report
    report-keeps e (skips detail) db q h =
        by_outcome e skipped (some "no_knowledge") none none db q refl h
    report-keeps e (compiles uuid) db q h =
        by_outcome e compiled none none (some (uuid ∷ [])) db q refl h

    pub record_failed-keeps :
        (e : EventRow) (t : Thrown) (db : Database) → Q e → P db → P (record_failed w job e t db).0
    unfolding record_failed
    record_failed-keeps e t db q h = by_outcome e failed none (some (sanitized t)) none db q refl h

    module _ (by_page : KeptByPage) where
      pub try_event-keeps :
          (clients : Clients) (e : EventRow) (db : Database)
          → Q e
          → P db
          → P (try_event w job clients e db).0
      unfolding try_event
      try_event-keeps clients e db q h =
          then_do-keeps P (placed w job clients e db) (reported w job e) (by_page clients e db h)
            (λ o s k.
              then_do-keeps P (report w job e o s) (λ done after. (after, ok o))
                (report-keeps e o s q k) (λ done after m. m))

      pub compile_event-keeps :
          (clients : Clients) (e : EventRow) (t : Tally) (db : Database)
          → Q e
          → P db
          → P (compile_event w job clients e t db).0
      unfolding compile_event
      compile_event-keeps clients e t db q h =
          let tried = try_event w job clients e db in
          elim (Result-cases tried.1) [
            | inl (outcome, worked) ↦ rw (worked, compile_event) (try_event-keeps clients e db q h)
            | inr (thrown, stopped) ↦
                rw (stopped, compile_event)
                  (then_do-keeps P (record_failed w job e thrown tried.0)
                    (λ done after. (after, ok (counted_failure t)))
                    (record_failed-keeps e thrown tried.0 q (try_event-keeps clients e db q h))
                    (λ done after m. m))
          ]

      pub compile_events-keeps :
          (clients : Clients) (es : List EventRow) (t : Tally) (db : Database)
          → All Q es
          → P db
          → P (compile_events w job clients es t db).0
      unfolding compile_events
      compile_events-keeps clients [] t db q h = h
      compile_events-keeps clients (e ∷ es) t db q h =
          elim (Result-cases (compile_event w job clients e t db).1) [
            | inl (next, went) ↦
                rw (went, compile_events)
                  (compile_events-keeps clients es next (compile_event w job clients e t db).0 q.1
                    (compile_event-keeps clients e t db q.0 h))
            | inr (thrown, stopped) ↦
                rw (stopped, compile_events) (compile_event-keeps clients e t db q.0 h)
          ]

      module _ (by_status : KeptByStatus) where
        pub finish-keeps : (t : Tally) (db : Database) → P db → P (finish w job t db).0
        unfolding finish
        finish-keeps t db h = elim (Bool-cases (all_failed w job t)) [
          | inl all ↦ rw all (
              by_status to_failed (some (some (all_events_failed w job t.failed_count)))
                (some (some (snapshot_of w job t))) db h)
          | inr some_done ↦
              rw some_done (by_status to_completed none (some (some (snapshot_of w job t))) db h)
        ]

        pub run_events-keeps :
            (clients : Clients) (es : List EventRow) (db : Database)
            → All Q es
            → P db
            → P (run_events w job clients es db).0
        unfolding run_events
        run_events-keeps clients es db q h =
            then_do-keeps P (set_job_status w job to_processing none none db)
              (after_start w job clients es) (by_status to_processing none none db h)
              (λ done s k.
                then_do-keeps P (compile_events w job clients es empty_tally s) (finish w job)
                  (compile_events-keeps clients es empty_tally s q k)
                  (λ t after m. finish-keeps t after m))

        pub handle_compile_job-keeps :
            (clients : Clients) (ids : List String) (db : Database)
            → All Q (get_events_by_ids db.events job.team_id job.project_id ids)
            → P db
            → P (handle_compile_job w job clients ids db).0
        unfolding handle_compile_job
        handle_compile_job-keeps clients ids db q h = elim (Option-cases (w.outage load_events)) [
          | inr (t, down) ↦ rw (down, handle_compile_job) h
          | inl up ↦
              elim (List-cases (get_events_by_ids db.events job.team_id job.project_id ids)) [
                | inl missing ↦
                    rw (up, handle_compile_job, missing)
                      (by_status to_failed
                        (some (
                          some
                            (no_events_found w job "No events found for the given scope and IDs")))
                        none db h)
                | inr (e, es, found) ↦
                    rw (up, handle_compile_job, found)
                      (run_events-keeps clients (e ∷ es) db (rw found at q) h)
              ]
        ]
