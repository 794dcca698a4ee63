-- ===== src/Jobs/Lifecycle/Retry.antt =====
-- About `resetJobForRetry`, and what the worker finds after it.
use teamem_server.Prelude.{
  ℕ, ◌+◌, ◌≤◌, ◌≡◌, refl, ◌∙◌, inl, inr, Bool, true, false, ◌&&◌, ◌||◌, none, some, String, [], ◌∷◌,
  map, arith, tests, str_eq, length, first, Option-cases,
}
use teamem_server.Table.{filter, update_where, returning, update_where_none, first-filter_holds}
use teamem_server.Table.Unique.{
  filter_unique, filter-update_unique, filter_of_unique, filter-filter, map-filter-update,
  first-map,
}
use teamem_server.Jobs.Rows.{
  JobRow, JobStore, JobEventRow, queued, processing, failed, pending, event_status_eq,
}
use teamem_server.Jobs.Lifecycle.{
  RetryMode, only_failed, all, is_retryable, requeued_row, is_reset_by, reset_event, event_of_job,
  reset_job_for_retry, is_claimable, claimed_row, claim_job, get_job_events,
}

none-ne-some {ℓ} : {A : Type ℓ} {a : A} → none ≡ some a → ⊥
none-ne-some h = cc

-- The outcomes that a retry runs again.
abbrev pub to_redo : RetryMode → JobEventRow → Bool
to_redo only_failed e = event_status_eq e.status pending || event_status_eq e.status failed
to_redo all e = true

module _ (team proj id : String) where
  -- What a call that takes the job back leaves in the two tables.
  pub reset-won :
      (now : ℕ) (mode : RetryMode) (db : JobStore) (job : JobRow)
      → (reset_job_for_retry now team proj id mode db).1 ≡ some job
      → (first (returning (is_retryable team proj id) requeued_row db.jobs) ≡ some job)
        × ((reset_job_for_retry now team proj id mode db).0 ≡ record {
          jobs = update_where (is_retryable team proj id) requeued_row db.jobs;
          job_events = update_where (is_reset_by mode team proj id) (reset_event now) db.job_events;
        })
  unfolding reset_job_for_retry
  reset-won now mode db job h =
      elim (Option-cases (first (returning (is_retryable team proj id) requeued_row db.jobs))) [
        | inl lost ↦ absurd (none-ne-some (rw (lost, reset_job_for_retry) at h))
        | inr (won, e) ↦ (e ∙ rw (e, reset_job_for_retry) at h, rw (e, reset_job_for_retry))
      ]

  -- Where no row of that id in that scope is failed or completed, a retry is refused and changes
  -- nothing.
  pub reset_job_for_retry-none :
      (now : ℕ) (mode : RetryMode) (db : JobStore)
      → filter (is_retryable team proj id) db.jobs ≡ []
      → reset_job_for_retry now team proj id mode db ≡ (db, none)
  unfolding reset_job_for_retry
  reset_job_for_retry-none now mode db h =
      unfold returning in
      rw (h, reset_job_for_retry)
        (rw (update_where_none (is_retryable team proj id) requeued_row db.jobs h) refl)

  -- If at most one row has the job's id and a retry takes it back, the job is queued, its row from before is the only
  -- one under the id, and the next claim gets it, at any time: with the same id, in processing, with one attempt more
  -- than before the retry, started now, and with no end and no error left.
  pub claim-reset_job_for_retry :
      (now later : ℕ) (mode : RetryMode) (db : JobStore) (job : JobRow)
      → length (filter (λ r. str_eq r.id id) db.jobs) ≤ 1
      → (reset_job_for_retry now team proj id mode db).1 ≡ some job
      → (job.status ≡ queued)
        × ((old : JobRow) × (row : JobRow) × (filter (λ (r : JobRow). str_eq r.id id) db.jobs
              ≡ old ∷ [])
            × ((claim_job later team proj id (reset_job_for_retry now team proj id mode db).0).1
                ≡ some row)
            × (row.id ≡ id)
            × (row.status ≡ processing)
            × (row.attempts ≡ old.attempts + 1)
            × (row.started_at ≡ some later)
            × (row.finished_at ≡ none)
            × (row.error ≡ none))
  unfolding claim_job
  claim-reset_job_for_retry now later mode db job one h =
      let (won, after) = reset-won now mode db job h in
      let (old, found, same) =
        first-map requeued_row (filter (is_retryable team proj id) db.jobs) job won in
      let only : filter (λ (r : JobRow). str_eq r.id id)
            (update_where (is_retryable team proj id) requeued_row db.jobs)
          ≡ requeued_row old ∷ [] =
        filter-update_unique (is_retryable team proj id) (λ r. str_eq r.id id) requeued_row
          (λ r k. ground arith) (λ r. refl) db.jobs old one found in
      let claimable : is_claimable team proj id (requeued_row old) ≡ true =
        ground (arith, first-filter_holds (is_retryable team proj id) db.jobs old found) in
      let named : old.id ≡ id =
        grind (tests, first-filter_holds (is_retryable team proj id) db.jobs old found) in
      let selected : filter (is_claimable team proj id)
            (update_where (is_retryable team proj id) requeued_row db.jobs)
          ≡ requeued_row old ∷ [] =
        filter_of_unique (is_claimable team proj id) (λ r. str_eq r.id id) (λ r k. ground arith)
          (update_where (is_retryable team proj id) requeued_row db.jobs) (requeued_row old) only
          claimable in
      (
        rw (← same) refl,
        (
          old,
          claimed_row later (requeued_row old),
          filter_unique (is_retryable team proj id) (λ r. str_eq r.id id) (λ r k. ground arith)
              db.jobs old one found,
          rw (after, selected) refl,
          named,
          refl,
          refl,
          refl,
          refl,
          refl,
        ),
      )

  hit :
      (now : ℕ) (mode : RetryMode) (e : JobEventRow)
      → is_reset_by mode team proj id e ≡ true
      → (event_of_job team proj id (reset_event now e) && event_status_eq pending pending)
        ≡ (event_of_job team proj id e && to_redo mode e)
  hit now only_failed e h = ground arith
  hit now all e h = ground arith

  miss :
      (mode : RetryMode) (e : JobEventRow)
      → is_reset_by mode team proj id e ≡ false
      → (event_of_job team proj id e && event_status_eq e.status pending)
        ≡ (event_of_job team proj id e && to_redo mode e)
  miss only_failed e h = ground arith
  miss all e h = ground arith

  -- What the worker loads after a retry that takes the job back: under mode 'failed' the events of
  -- the job that were pending or failed, under mode 'all' every event of the job, in the same order.
  pub pending-reset_job_for_retry :
      (now : ℕ) (mode : RetryMode) (db : JobStore) (job : JobRow)
      → (reset_job_for_retry now team proj id mode db).1 ≡ some job
      → map
          (λ (e : JobEventRow). e.event_id)
          (filter
            (λ e. event_status_eq e.status pending)
            (get_job_events (reset_job_for_retry now team proj id mode db).0 team proj id))
        ≡ map
            (λ (e : JobEventRow). e.event_id)
            (filter (to_redo mode) (get_job_events db team proj id))
  unfolding get_job_events
  pending-reset_job_for_retry now mode db job h = rw ((reset-won now mode db job h).1) (
      rw
        (
          filter-filter (λ (e : JobEventRow). event_status_eq e.status pending)
              (event_of_job team proj id)
              (update_where (is_reset_by mode team proj id) (reset_event now) db.job_events),
          filter-filter (to_redo mode) (event_of_job team proj id) db.job_events,
        )
        (map-filter-update (λ (e : JobEventRow). e.event_id) (is_reset_by mode team proj id)
          (λ e. event_of_job team proj id e && to_redo mode e)
          (λ e. event_of_job team proj id e && event_status_eq e.status pending) (reset_event now)
          (hit now mode) (miss mode) (λ e. refl) db.job_events))
