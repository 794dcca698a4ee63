-- ===== src/Compile/Run/Count.antt =====
-- About the counters of `handleCompileJob` and a job's result snapshot.
use mathlib.Core.List.{append_assoc, append-nil}
use teamem_server.Prelude.{
  ℕ, ◌+◌, ◌≤◌, ◌≡◌, refl, sym, String, Result, err, ◌++◌, ap, ◌∙◌, inl, inr, true, false, none,
  some, List, [], ◌∷◌, ok, err-ne-ok, ok-injective, Result-cases, Option-cases, Bool-cases, then_do,
  then_do-returned, arith, All, length, subst, ◌==◌, if◌then◌else◌,
}
use teamem_server.Table.{filter, All-filter_updated}
use teamem_server.Jobs.Rows.{JobRow, JobStatus, completed, counts, in_scope}
use teamem_server.Jobs.Lifecycle.{
  to_processing, to_completed, to_failed, updated_row, update_job_status,
}
use teamem_server.Compile.Events.{EventRow}
use teamem_server.Compile.Services.{Thrown, set_status, Clients, Services}
use teamem_server.Compile.Page.{Outcome, skips, compiles}
use teamem_server.Compile.Run.{
  Database, JobRef, Tally, empty_tally, counted, counted_failure, set_job_status, record_failed,
  try_event, compile_event, compile_events, all_failed, all_events_failed, snapshot_of, finish,
  run_events,
}

-- What the results of the events say, in their order: the pages, the skips and the failures.
unfoldable pub pages_in : List (Result Thrown Outcome) → List String
pages_in [] = []
pages_in (ok (compiles uuid) ∷ rs) = uuid ∷ pages_in rs
pages_in (ok (skips detail) ∷ rs) = pages_in rs
pages_in (err t ∷ rs) = pages_in rs

unfoldable pub skips_in : List (Result Thrown Outcome) → ℕ
skips_in [] = 0
skips_in (ok (compiles uuid) ∷ rs) = skips_in rs
skips_in (ok (skips detail) ∷ rs) = 1 + skips_in rs
skips_in (err t ∷ rs) = skips_in rs

unfoldable pub failures_in : List (Result Thrown Outcome) → ℕ
failures_in [] = 0
failures_in (ok outcome ∷ rs) = failures_in rs
failures_in (err t ∷ rs) = 1 + failures_in rs

whole_count :
    (rs : List (Result Thrown Outcome))
    → length (pages_in rs) + (skips_in rs + failures_in rs) ≡ length rs
unfolding pages_in skips_in failures_in
whole_count [] = refl
whole_count (ok (compiles uuid) ∷ rs) = omega (arith, whole_count rs)
whole_count (ok (skips detail) ∷ rs) = omega (arith, whole_count rs)
whole_count (err t ∷ rs) = omega (arith, whole_count rs)

-- A tally with these results more.
abbrev Adds : List (Result Thrown Outcome) → Tally → Tally → Type 0
Adds rs t u =
    (u.concept_uuids ≡ t.concept_uuids ++ pages_in rs)
    × (u.compiled_count ≡ t.compiled_count + length (pages_in rs))
    × (u.skipped_count ≡ t.skipped_count + skips_in rs)
    × (u.failed_count ≡ t.failed_count + failures_in rs)

abbrev noted : Result Thrown Outcome → Tally → Tally
noted (ok outcome) t = counted outcome t
noted (err thrown) t = counted_failure t

nothing-Adds : (t : Tally) → Adds [] t t
unfolding pages_in skips_in failures_in
nothing-Adds t = (sym (append-nil t.concept_uuids), omega arith, omega arith, omega arith)

noted-Adds :
    (r : Result Thrown Outcome) (rs : List (Result Thrown Outcome)) (t u : Tally)
    → Adds rs (noted r t) u
    → Adds (r ∷ rs) t u
unfolding pages_in skips_in failures_in
noted-Adds (ok (compiles uuid)) rs t u (pages, compiled, skipped, failed) = (
  pages ∙ append_assoc t.concept_uuids (uuid ∷ []) (pages_in rs),
  omega (arith, compiled),
  skipped,
  failed,
)
noted-Adds (ok (skips detail)) rs t u (pages, compiled, skipped, failed) =
    (pages, compiled, omega (arith, skipped), failed)
noted-Adds (err thrown) rs t u (pages, compiled, skipped, failed) =
    (pages, compiled, skipped, omega (arith, failed))

-- The tally of a run with these results.
abbrev tally_of : List (Result Thrown Outcome) → Tally
tally_of rs = record {
  concept_uuids = pages_in rs;
  compiled_count = length (pages_in rs);
  skipped_count = skips_in rs;
  failed_count = failures_in rs;
}

tally_of-eq :
    (rs : List (Result Thrown Outcome)) (t : Tally) → Adds rs empty_tally t → t ≡ tally_of rs
tally_of-eq rs t (pages, compiled, skipped, failed) = λ i. record {
  concept_uuids = pages i;
  compiled_count = from_zero t.compiled_count (length (pages_in rs)) compiled i;
  skipped_count = from_zero t.skipped_count (skips_in rs) skipped i;
  failed_count = from_zero t.failed_count (failures_in rs) failed i;
}
  where
    from_zero : (m n : ℕ) → m ≡ 0 + n → m ≡ n
    from_zero m n h = omega arith

module _ (w : Services) (job : JobRef) where
  -- The tables after an event: where trying it threw, its failure is recorded.
  unfoldable pub after_event : Clients → EventRow → Database → Database
  after_event clients e db = elim (try_event w job clients e db).1 [
    | ok outcome ↦ (try_event w job clients e db).0
    | err thrown ↦ (record_failed w job e thrown (try_event w job clients e db).0).0
  ]

  -- What trying the events gives, each on the tables that those before it left.
  unfoldable pub results : Clients → List EventRow → Database → List (Result Thrown Outcome)
  unfolding after_event
  results clients [] db = []
  results clients (e ∷ es) db =
      (try_event w job clients e db).1 ∷ results clients es (after_event clients e db)

  length-results :
      (clients : Clients) (es : List EventRow) (db : Database)
      → length (results clients es db) ≡ length es
  unfolding results
  length-results clients [] db = refl
  length-results clients (e ∷ es) db =
      omega (arith, length-results clients es (after_event clients e db))

  compile_event-noted :
      (clients : Clients) (e : EventRow) (t u : Tally) (db : Database)
      → (compile_event w job clients e t db).1 ≡ ok u
      → (noted (try_event w job clients e db).1 t ≡ u)
        × ((compile_event w job clients e t db).0 ≡ after_event clients e db)
  unfolding compile_event after_event
  compile_event-noted clients e t u db h =
      let tried = try_event w job clients e db in
      elim (Result-cases tried.1) [
        | inl (outcome, worked) ↦ (
          rw worked (ok-injective (rw (worked, compile_event) at h)),
          rw (worked, compile_event, after_event) refl,
        )
        | inr (thrown, failed_so) ↦
            let (done, recorded, same) =
              then_do-returned (record_failed w job e thrown tried.0)
                (λ done after. (after, ok (counted_failure t))) u
                (rw (failed_so, compile_event) at h) in
            (
              rw failed_so (ok-injective (rw same at (rw (failed_so, compile_event) at h))),
              rw (failed_so, compile_event, after_event)
                  (ap (λ (p : Database × Result Thrown Tally). p.0) same),
            )
      ]

  compile_events-Adds :
      (clients : Clients) (es : List EventRow) (t u : Tally) (db : Database)
      → (compile_events w job clients es t db).1 ≡ ok u
      → Adds (results clients es db) t u
  unfolding compile_events results
  compile_events-Adds clients [] t u db h = subst (Adds [] t) (ok-injective h) (nothing-Adds t)
  compile_events-Adds clients (e ∷ es) t u db h =
      let first = compile_event w job clients e t db in
      elim (Result-cases first.1) [
        | inr (thrown, stopped) ↦ absurd (err-ne-ok (rw (stopped, compile_events) at h))
        | inl (next, went) ↦
            let (kept, same) = compile_event-noted clients e t next db went in
            noted-Adds (try_event w job clients e db).1
              (results clients es (after_event clients e db)) t u
              (subst (λ n. Adds (results clients es (after_event clients e db)) n u) (sym kept)
                (subst (λ d. Adds (results clients es d) next u) same
                  (compile_events-Adds clients es next u first.0 (rw (went, compile_events) at h))))
      ]

  -- What a run with these results writes into the row of its job.
  abbrev pub Reports : List (Result Thrown Outcome) → JobRow → Type 0
  Reports rs r =
      (r.result_snapshot
        ≡ some (counts (pages_in rs) (length (pages_in rs)) (skips_in rs) (failures_in rs)))
      × (r.finished_at ≡ some w.now)
      × (r.status ≡ (if failures_in rs == length rs then JobStatus.failed else completed))

  abbrev pub ReportsAll : List (Result Thrown Outcome) → Database → Type 0
  ReportsAll rs db =
      All (Reports rs) (filter (in_scope job.team_id job.project_id job.job_id) db.job_store.jobs)

  finish-ReportsAll :
      (rs : List (Result Thrown Outcome)) (db : Database)
      → 1 ≤ length rs
      → (finish w job (tally_of rs) db).1 ≡ ok tt
      → ReportsAll rs (finish w job (tally_of rs) db).0
  unfolding finish set_job_status update_job_status
  finish-ReportsAll rs db some_event h =
      let sum = whole_count rs in
      elim (Bool-cases (all_failed w job (tally_of rs))) [
        | inl all ↦
            let every : (failures_in rs == length rs) ≡ true = ground (arith, all, sum) in
            elim (Option-cases (w.outage (set_status to_failed))) [
              | inl up ↦
                  rw (all, up, set_job_status)
                    (All-filter_updated (in_scope job.team_id job.project_id job.job_id)
                      (updated_row w.now to_failed
                        (some (some (all_events_failed w job (failures_in rs))))
                        (some (some (snapshot_of w job (tally_of rs)))))
                      (Reports rs) (λ r. (refl, refl, rw every refl)) db.job_store.jobs)
              | inr (e, down) ↦ absurd (err-ne-ok (rw (all, down, set_job_status) at h))
            ]
        | inr some_done ↦
            let not_every : (failures_in rs == length rs) ≡ false =
              ground (arith, some_done, sum, some_event) in
            elim (Option-cases (w.outage (set_status to_completed))) [
              | inl up ↦
                  rw (some_done, up, set_job_status)
                    (All-filter_updated (in_scope job.team_id job.project_id job.job_id)
                      (updated_row w.now to_completed none
                        (some (some (snapshot_of w job (tally_of rs)))))
                      (Reports rs) (λ r. (refl, refl, rw not_every refl)) db.job_store.jobs)
              | inr (e, down) ↦ absurd (err-ne-ok (rw (some_done, down, set_job_status) at h))
            ]
      ]

  -- The results of the events of a run, from the tables on which the job is in processing.
  abbrev pub run_results : Clients → List EventRow → Database → List (Result Thrown Outcome)
  run_results clients es db = results clients es (set_job_status w job to_processing none none db).0

  -- A run of at least one event that returns reports what trying its events gave, each on the tables that those before
  -- it left, with the failures recorded: the rows of the job hold as their snapshot the uuids of the compiled events
  -- in order, their number, the number of the skipped and that of the failed events, are finished now, and have the
  -- status 'failed' if each of the events failed and 'completed' otherwise; the three numbers add up to all events.
  pub run_events-Reports :
      (clients : Clients) (e : EventRow) (es : List EventRow) (db : Database)
      → (run_events w job clients (e ∷ es) db).1 ≡ ok tt
      → (length (pages_in (run_results clients (e ∷ es) db))
            + (skips_in (run_results clients (e ∷ es) db)
                + failures_in (run_results clients (e ∷ es) db))
          ≡ length (e ∷ es))
        × ReportsAll (run_results clients (e ∷ es) db) (run_events w job clients (e ∷ es) db).0
  unfolding run_events
  run_events-Reports clients e es db h =
      let started = set_job_status w job to_processing none none db in
      let rs = results clients (e ∷ es) started.0 in
      let many = length-results clients (e ∷ es) started.0 in
      let (done, ready, same) =
        then_do-returned started
          (λ done s. then_do (compile_events w job clients (e ∷ es) empty_tally s) (finish w job))
          tt h in
      let (t, ran, ends) =
        then_do-returned (compile_events w job clients (e ∷ es) empty_tally started.0)
          (finish w job) tt (rw same at h) in
      let tally =
        tally_of-eq rs t (compile_events-Adds clients (e ∷ es) empty_tally t started.0 ran) in
      let last_state = (compile_events w job clients (e ∷ es) empty_tally started.0).0 in
      let returned : (finish w job (tally_of rs) last_state).1 ≡ ok tt =
        subst (λ u. (finish w job u last_state).1 ≡ ok tt) tally (rw ends at (rw same at h)) in
      (
        whole_count rs ∙ many,
        rw same (
            rw ends (
              subst (λ u. ReportsAll rs (finish w job u last_state).0) (sym tally)
                (finish-ReportsAll rs last_state (omega (arith, many)) returned))),
      )
