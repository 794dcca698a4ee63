-- ===== src/Compile/Run/Outcomes.antt =====
-- About the outcomes that a run records for its events.
use teamem_server.Prelude.{
  ℕ, ◌≡◌, ◌≢◌, refl, sym, subst, inl, inr, ◌∙◌, Bool, true, false, Option, none, some, String, List,
  [], ◌∷◌, Result, ok, err-ne-ok, Result-cases, Option-cases, Bool-cases, then_do-returned, arith,
  All, All-map, All-intro, any, str_eq_self, str_eq_iff,
}
use teamem_server.Table.{
  filter, update_where, All-update_where, All-update_where_new, All-guarded, filter-update_apart,
}
use teamem_server.Jobs.Rows.{
  JobEventStatus, pending, compiled, skipped, failed, JobEventRow, JobStore, UpsertJobEventRequest,
  ErrorInfo, event_status_eq,
}
use teamem_server.Jobs.Lifecycle.{
  to_processing, update_job_status, same_event, overwritten, new_event_row, upsert_job_event,
}
use teamem_server.Compile.Events.{EventRow}
use teamem_server.Compile.Services.{Thrown, set_status, set_outcome, Clients, Services, sanitized}
use teamem_server.Compile.Page.{Outcome, skips, compiles}
use teamem_server.Compile.Run.{
  Database, JobRef, Tally, empty_tally, counted_failure, set_job_status, record_outcome, report,
  record_failed, placed, reported, try_event, compile_event, compile_events, finish, after_start,
  run_events,
}
use teamem_server.Compile.Run.Keeps.{
  KeptByStatus, KeptByOutcome, KeptByPage, compile_events-keeps, finish-keeps,
}

abbrev pub is_open : JobEventRow → Bool
is_open r = event_status_eq r.status pending

abbrev pub IsDone : String → String → List JobEventRow → Type 0
IsDone job ev rows =
    (any (same_event job ev) rows ≡ true)
    × All (λ r. same_event job ev r ≡ true → is_open r ≡ false) rows

any-update_where :
    (job ev job' ev' : String) (now : ℕ) (req : UpsertJobEventRequest) (rows : List JobEventRow)
    → any (same_event job ev) (update_where (same_event job' ev') (overwritten now req) rows)
      ≡ any (same_event job ev) rows
unfolding update_where
any-update_where job ev job' ev' now req [] = refl
any-update_where job ev job' ev' now req (r ∷ rows) =
    ground (arith, any-update_where job ev job' ev' now req rows)

no_match :
    (job ev : String) (rows : List JobEventRow)
    → any (same_event job ev) rows ≡ false
    → All (λ r. same_event job ev r ≡ true → is_open r ≡ false) rows
no_match job ev [] h = tt
no_match job ev (r ∷ rows) h = (ground arith, no_match job ev rows (ground arith))

upsert-IsDone :
    (now : ℕ) (req : UpsertJobEventRequest) (db : JobStore)
    → event_status_eq req.status pending ≡ false
    → IsDone req.job_id req.event_id (upsert_job_event now req db).job_events
unfolding upsert_job_event
upsert-IsDone now req db done =
    elim (Bool-cases (any (same_event req.job_id req.event_id) db.job_events)) [
      | inl there ↦
          rw (there, upsert_job_event)
            (
              any-update_where req.job_id req.event_id req.job_id req.event_id now req db.job_events
                  ∙ there,
              All-update_where_new (same_event req.job_id req.event_id) (overwritten now req)
                  (λ r. is_open r ≡ false) (λ r. done) db.job_events,
            )
      | inr missing ↦
          rw (missing, upsert_job_event)
            (
              rw (str_eq_self req.job_id, str_eq_self req.event_id) refl,
              ((λ k. done), no_match req.job_id req.event_id db.job_events missing),
            )
    ]

upsert-keeps_IsDone :
    (job ev : String) (now : ℕ) (req : UpsertJobEventRequest) (db : JobStore)
    → event_status_eq req.status pending ≡ false
    → IsDone job ev db.job_events
    → IsDone job ev (upsert_job_event now req db).job_events
unfolding upsert_job_event
upsert-keeps_IsDone job ev now req db done h =
    elim (Bool-cases (any (same_event req.job_id req.event_id) db.job_events)) [
      | inl there ↦
          rw (there, upsert_job_event)
            (
              any-update_where job ev req.job_id req.event_id now req db.job_events ∙ h.0,
              All-update_where (same_event req.job_id req.event_id) (overwritten now req)
                  (λ r. same_event job ev r ≡ true → is_open r ≡ false) (λ r k q m. done)
                  db.job_events h.1,
            )
      | inr missing ↦ rw (missing, upsert_job_event) (ground (arith, h.0), ((λ k. done), h.1))
    ]

apart_rows :
    (job ev job' ev' : String) (r : JobEventRow)
    → (job' ≡ job → ev' ≢ ev)
    → same_event job' ev' r ≡ true
    → same_event job ev r ≡ false
apart_rows job ev job' ev' r other k = elim (Bool-cases (same_event job ev r)) [
  | inr not_both ↦ not_both
  | inl both ↦
      let same_job : job' ≡ job =
        ground (arith, str_eq_iff r.job_id job', str_eq_iff r.job_id job) in
      let same_ev : ev' ≡ ev =
        ground (arith, str_eq_iff r.event_id ev', str_eq_iff r.event_id ev) in
      absurd (other same_job same_ev)
]

-- An outcome for another event, or for another job, leaves the rows of the event as they are.
pub upsert-apart :
    (job ev : String) (now : ℕ) (req : UpsertJobEventRequest) (db : JobStore)
    → (req.job_id ≡ job → req.event_id ≢ ev)
    → filter (same_event job ev) (upsert_job_event now req db).job_events
      ≡ filter (same_event job ev) db.job_events
unfolding upsert_job_event filter
upsert-apart job ev now req db other =
    elim (Bool-cases (any (same_event req.job_id req.event_id) db.job_events)) [
      | inl there ↦
          rw (there, upsert_job_event)
            (filter-update_apart (same_event req.job_id req.event_id) (overwritten now req)
              (same_event job ev)
              (λ r k. (
                apart_rows job ev req.job_id req.event_id r other k,
                apart_rows job ev req.job_id req.event_id r other k,
              ))
              db.job_events)
      | inr missing ↦
          rw
            (
              missing,
              upsert_job_event,
              apart_rows job ev req.job_id req.event_id (new_event_row now req) other
                  (rw (str_eq_self req.job_id, str_eq_self req.event_id) refl),
            )
            refl
    ]

module _ (w : Services) (job : JobRef) where
  abbrev pub IsDoneIn : String → Database → Type 0
  IsDoneIn ev db = IsDone job.job_id ev db.job_store.job_events

  record_outcome-IsDone :
      (e : EventRow) (s : JobEventStatus) (reason : Option String) (er : Option ErrorInfo)
      (uuids : Option (List String)) (db : Database)
      → event_status_eq s pending ≡ false
      → (record_outcome w job e s reason er uuids db).1 ≡ ok tt
      → IsDoneIn e.id (record_outcome w job e s reason er uuids db).0
  unfolding record_outcome
  record_outcome-IsDone e s reason er uuids db done h =
      elim (Option-cases (w.outage (set_outcome e.id s))) [
        | inl up ↦ rw (up, record_outcome) (upsert-IsDone w.now _ db.job_store done)
        | inr (t, down) ↦ absurd (err-ne-ok (rw (down, record_outcome) at h))
      ]

  -- No write of a run makes an outcome pending again.
  module _ (ev : String) where
    abbrev AnyEvent : EventRow → Type 0
    AnyEvent e = Unit

    pub IsDone-by_status : KeptByStatus w job (IsDoneIn ev) AnyEvent
    unfolding set_job_status
    IsDone-by_status s er n db h = elim (Option-cases (w.outage (set_status s))) [
      | inl up ↦ rw (up, set_job_status) (unfold update_job_status in h)
      | inr (t, down) ↦ rw (down, set_job_status) h
    ]

    pub IsDone-by_outcome : KeptByOutcome w job (IsDoneIn ev) AnyEvent
    unfolding record_outcome
    IsDone-by_outcome e s reason er uuids db q done h =
        elim (Option-cases (w.outage (set_outcome e.id s))) [
          | inl up ↦
              rw (up, record_outcome)
                (upsert-keeps_IsDone job.job_id ev w.now _ db.job_store done h)
          | inr (t, down) ↦ rw (down, record_outcome) h
        ]

    pub IsDone-by_page : KeptByPage w job (IsDoneIn ev) AnyEvent
    unfolding placed
    IsDone-by_page clients e db h = h

    rest-IsDone :
        (clients : Clients) (es : List EventRow) (t : Tally) (db : Database)
        → IsDoneIn ev db
        → IsDoneIn ev (compile_events w job clients es t db).0
    rest-IsDone clients es t db h =
        compile_events-keeps w job (IsDoneIn ev) AnyEvent IsDone-by_outcome IsDone-by_page clients
          es t db (All-intro AnyEvent (λ e. tt) es) h

  report-IsDone :
      (e : EventRow) (o : Outcome) (db : Database)
      → (report w job e o db).1 ≡ ok tt
      → IsDoneIn e.id (report w job e o db).0
  unfolding report
  report-IsDone e (skips detail) db h =
      record_outcome-IsDone e skipped (some "no_knowledge") none none db refl h
  report-IsDone e (compiles uuid) db h =
      record_outcome-IsDone e compiled none none (some (uuid ∷ [])) db refl h

  try_event-IsDone :
      (clients : Clients) (e : EventRow) (o : Outcome) (db : Database)
      → (try_event w job clients e db).1 ≡ ok o
      → IsDoneIn e.id (try_event w job clients e db).0
  unfolding try_event
  try_event-IsDone clients e o db h =
      let page = placed w job clients e db in
      let (outcome, went, same) = then_do-returned page (reported w job e) o h in
      let (done, told, ends) =
        then_do-returned (report w job e outcome page.0) (λ done after. (after, ok outcome)) o
          (rw same at h) in
      rw same (rw ends (report-IsDone e outcome page.0 told))

  compile_event-IsDone :
      (clients : Clients) (e : EventRow) (t u : Tally) (db : Database)
      → (compile_event w job clients e t db).1 ≡ ok u
      → IsDoneIn e.id (compile_event w job clients e t db).0
  unfolding compile_event record_failed
  compile_event-IsDone clients e t u db h =
      let tried = try_event w job clients e db in
      elim (Result-cases tried.1) [
        | inl (outcome, worked) ↦
            rw (worked, compile_event) (try_event-IsDone clients e outcome db worked)
        | inr (thrown, failed_so) ↦
            let (done, recorded, same) =
              then_do-returned (record_failed w job e thrown tried.0)
                (λ done after. (after, ok (counted_failure t))) u
                (rw (failed_so, compile_event) at h) in
            rw (failed_so, compile_event)
              (rw same (
                record_outcome-IsDone e failed none (some (sanitized thrown)) none tried.0 refl
                  recorded))
      ]

  compile_events-IsDone :
      (clients : Clients) (es : List EventRow) (t u : Tally) (db : Database)
      → (compile_events w job clients es t db).1 ≡ ok u
      → All (λ (e : EventRow). IsDoneIn e.id (compile_events w job clients es t db).0) es
  unfolding compile_events
  compile_events-IsDone clients [] t u db h = tt
  compile_events-IsDone clients (e ∷ es) t u db h =
      let one = compile_event w job clients e t db in
      elim (Result-cases one.1) [
        | inl (next, went) ↦
            let goes_on : compile_events w job clients (e ∷ es) t db
                ≡ compile_events w job clients es next one.0 =
              rw (went, compile_events) refl in
            subst
              (λ (r : Database × Result Thrown Tally).
                All (λ (ev : EventRow). IsDoneIn ev.id r.0) (e ∷ es))
              (sym goes_on)
              (
                rest-IsDone e.id clients es next one.0
                    (compile_event-IsDone clients e t next db went),
                compile_events-IsDone clients es next u one.0 (rw (went, compile_events) at h),
              )
        | inr (thrown, stopped) ↦ absurd (err-ne-ok (rw (stopped, compile_events) at h))
      ]

  -- The event has a row in the job, and none of its rows is pending.
  abbrev pub HasOutcome : Database → EventRow → Type 0
  HasOutcome db e =
      (any (same_event job.job_id e.id) db.job_store.job_events ≡ true)
      × All (λ (r : JobEventRow). is_open r ≡ false)
          (filter (same_event job.job_id e.id) db.job_store.job_events)

  -- A run that returns leaves each of its events with an outcome in the job, and with none that is
  -- pending.
  pub run_events-IsDone :
      (clients : Clients) (es : List EventRow) (db : Database)
      → (run_events w job clients es db).1 ≡ ok tt
      → All (HasOutcome (run_events w job clients es db).0) es
  unfolding run_events
  run_events-IsDone clients es db h =
      let started = set_job_status w job to_processing none none db in
      let (done, ready, same) = then_do-returned started (after_start w job clients es) tt h in
      let (t, ran, ends) =
        then_do-returned (compile_events w job clients es empty_tally started.0) (finish w job) tt
          (rw same at h) in
      let events = (compile_events w job clients es empty_tally started.0).0 in
      rw same (
        rw ends (
          All-map (λ (e : EventRow). IsDoneIn e.id events) (HasOutcome (finish w job t events).0)
            (λ e k.
              let (there, closed) =
                finish-keeps w job (IsDoneIn e.id) (AnyEvent e.id) (IsDone-by_outcome e.id)
                  (IsDone-by_page e.id) (IsDone-by_status e.id) t events k in
              (
                there,
                All-guarded (same_event job.job_id e.id) (λ (r : JobEventRow). is_open r ≡ false)
                    (finish w job t events).0.job_store.job_events closed,
              ))
            es (compile_events-IsDone clients es empty_tally t started.0 ran)))
