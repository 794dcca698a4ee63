-- ===== src/Jobs/Lifecycle/Sweep.antt =====
-- About `reclaimStaleProcessingJobs` of db/repositories/jobs.ts.
use teamem_server.Prelude.{
  ℕ, ◌-◌, ◌≡◌, refl, ◌∙◌, inl, inr, Bool, ◌||◌, some, List, [], ◌∷◌, map, arith, All, List-cases,
}
use teamem_server.Table.{
  filter, update_where, returning, filter-update_none, filter-update_apart, update_where_none,
}
use teamem_server.Jobs.Rows.{
  JobRow, JobStore, JobEventRow, compiled, skipped, failed, event_status_eq,
}
use teamem_server.Jobs.Lifecycle.{
  is_stale, reclaimed_row, is_abandoned, abandoned_event, interrupted,
  reclaim_stale_processing_jobs,
}

no_rows : (es : List JobEventRow) → filter (is_abandoned []) es ≡ []
unfolding filter
no_rows [] = refl
no_rows (e ∷ es) = no_rows es

stamped :
    (now : ℕ) (rs : List JobRow)
    → All
        (λ (j : JobRow).
          (j.status ≡ failed) × (j.finished_at ≡ some now) × (j.error ≡ some interrupted))
        (map (reclaimed_row now) rs)
stamped now [] = tt
stamped now (r ∷ rs) = ((refl, refl, refl), stamped now rs)

-- The two tables after a sweep, in one form for both of its exits.
sweep-eq :
    (now stale_after_ms : ℕ) (db : JobStore)
    → reclaim_stale_processing_jobs now stale_after_ms db ≡ (
      record {
        jobs = update_where (is_stale (now - stale_after_ms)) (reclaimed_row now) db.jobs;
        job_events =
            update_where
              (is_abandoned
                (returning (is_stale (now - stale_after_ms)) (reclaimed_row now) db.jobs))
              (abandoned_event now)
              db.job_events;
      },
      returning (is_stale (now - stale_after_ms)) (reclaimed_row now) db.jobs,
    )
unfolding reclaim_stale_processing_jobs
sweep-eq now stale_after_ms db =
    elim (List-cases (returning (is_stale (now - stale_after_ms)) (reclaimed_row now) db.jobs)) [
      | inl none_stale ↦
          rw (none_stale, reclaim_stale_processing_jobs)
            (rw
              (update_where_none (is_abandoned []) (abandoned_event now) db.job_events
                (no_rows db.job_events))
              refl)
      | inr (j, js, some_stale) ↦ rw (some_stale, reclaim_stale_processing_jobs)
    ]

-- A second sweep at the same instant finds nothing and changes nothing: the first one left no job
-- in processing that was started before the cutoff.
pub reclaim_stale_processing_jobs_complete :
    (now stale_after_ms : ℕ) (db : JobStore)
    → reclaim_stale_processing_jobs now stale_after_ms
        (reclaim_stale_processing_jobs now stale_after_ms db).0
      ≡ ((reclaim_stale_processing_jobs now stale_after_ms db).0, [])
reclaim_stale_processing_jobs_complete now stale_after_ms db =
    let stale : JobRow → Bool = is_stale (now - stale_after_ms) in
    let left : filter stale (update_where stale (reclaimed_row now) db.jobs) ≡ [] =
      filter-update_none stale (reclaimed_row now) (λ r h. refl) db.jobs in
    again now stale_after_ms (reclaim_stale_processing_jobs now stale_after_ms db).0
      (rw (sweep-eq now stale_after_ms db) left)
  where
    again :
        (now stale_after_ms : ℕ) (db : JobStore)
        → filter (is_stale (now - stale_after_ms)) db.jobs ≡ []
        → reclaim_stale_processing_jobs now stale_after_ms db ≡ (db, [])
    again now stale_after_ms db h =
        sweep-eq now stale_after_ms db
        ∙ (unfold returning in
            rw h (
              rw
                (
                  update_where_none (is_stale (now - stale_after_ms)) (reclaimed_row now) db.jobs h,
                  update_where_none (is_abandoned []) (abandoned_event now) db.job_events
                      (no_rows db.job_events),
                )
                refl))

abbrev pub is_reached : JobEventRow → Bool
is_reached e = event_status_eq e.status compiled || event_status_eq e.status skipped

-- After a sweep every job that it hands back is failed, finished now, with the error
-- 'worker_interrupted'; no event of such a job is left pending; and the compiled and skipped
-- outcomes, of every job, are just those of before.
pub reclaim_stale_processing_jobs-outcomes :
    (now stale_after_ms : ℕ) (db : JobStore)
    → All
        (λ (j : JobRow).
          (j.status ≡ failed) × (j.finished_at ≡ some now) × (j.error ≡ some interrupted))
        (reclaim_stale_processing_jobs now stale_after_ms db).1
      × (filter
            (is_abandoned (reclaim_stale_processing_jobs now stale_after_ms db).1)
            (reclaim_stale_processing_jobs now stale_after_ms db).0.job_events
          ≡ [])
      × (filter is_reached (reclaim_stale_processing_jobs now stale_after_ms db).0.job_events
          ≡ filter is_reached db.job_events)
unfolding returning
reclaim_stale_processing_jobs-outcomes now stale_after_ms db = rw (sweep-eq now stale_after_ms db) (
  stamped now (filter (is_stale (now - stale_after_ms)) db.jobs),
  filter-update_none (is_abandoned _) (abandoned_event now) (λ e h. ground arith) db.job_events,
  filter-update_apart (is_abandoned _) (abandoned_event now) is_reached (λ e h. ground arith)
      db.job_events,
)
