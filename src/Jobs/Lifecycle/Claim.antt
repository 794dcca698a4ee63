-- ===== src/Jobs/Lifecycle/Claim.antt =====
-- About `claimJob` among the other calls of the repository.
use teamem_server.Prelude.{
  ℕ, ◌-◌, List-cases, ◌≡◌, refl, ◌≢◌, inl, inr, true, Option, none, String, List, [], ◌∷◌, arith,
  tests, All, first, Option-cases,
}
use teamem_server.Table.{
  filter, update_where, returning, filter-update_none, filter-update_still_none, update_where_none,
}
use teamem_server.Jobs.Rows.{ErrorInfo, ResultSnapshot, JobRow, JobStore, in_scope}
use teamem_server.Jobs.Lifecycle.{
  is_claimable, claimed_row, claim_job, NextStatus, RetryMode, to_processing, updated_row,
  update_job_status, is_retryable, requeued_row, reset_job_for_retry, is_stale, reclaimed_row,
  reclaim_stale_processing_jobs, upsert_job_event,
}
use teamem_server.Jobs.Lifecycle.Ops.{
  Op, create, claim, update_status, retry, reclaim, upsert, run_op, run_ops, create_job-adds,
}

-- The call is no retry of the job, and the id that a new job draws is not the job's.
abbrev pub LeavesQueueAlone : String → Op → Type 0
LeavesQueueAlone id (create new_id now req) = new_id ≢ id
LeavesQueueAlone id (retry now team proj job mode) = job ≢ id
LeavesQueueAlone id _ = Unit

module _ (team proj id : String) where
  abbrev pub NotClaimable : JobStore → Type 0
  NotClaimable db = filter (is_claimable team proj id) db.jobs ≡ []

  pub claim_job-none :
      (now : ℕ) (db : JobStore) → NotClaimable db → claim_job now team proj id db ≡ (db, none)
  unfolding claim_job
  claim_job-none now db h =
      rw (update_where_none (is_claimable team proj id) (claimed_row now) db.jobs h, h) refl

  pub claim_job-NotClaimable :
      (now : ℕ) (db : JobStore) → NotClaimable (claim_job now team proj id db).0
  unfolding claim_job
  claim_job-NotClaimable now db =
      filter-update_none (is_claimable team proj id) (claimed_row now) (λ r h. ground arith) db.jobs

  pub updated_row-not_claimable :
      (now : ℕ) (s : NextStatus) (e : Option (Option ErrorInfo))
      (n : Option (Option ResultSnapshot)) (r : JobRow)
      → is_claimable team proj id (updated_row now s e n r) ≡ true
      → is_claimable team proj id r ≡ true
  updated_row-not_claimable now to_processing e n r k = ground arith
  updated_row-not_claimable now s e n r k = ground arith

  reset-NotClaimable :
      (now : ℕ) (team' proj' id' : String) (mode : RetryMode) (db : JobStore)
      → id' ≢ id
      → NotClaimable db
      → NotClaimable (reset_job_for_retry now team' proj' id' mode db).0
  unfolding reset_job_for_retry
  reset-NotClaimable now team' proj' id' mode db h q =
      let kept : filter (is_claimable team proj id)
            (update_where (is_retryable team' proj' id') requeued_row db.jobs)
          ≡ [] =
        filter-update_still_none (is_retryable team' proj' id') requeued_row
          (is_claimable team proj id) (λ r p k. absurd (h (grind tests))) db.jobs q in
      elim (Option-cases (first (returning (is_retryable team' proj' id') requeued_row db.jobs))) [
        | inl lost ↦ rw (lost, reset_job_for_retry) kept
        | inr (job, won) ↦ rw (won, reset_job_for_retry) kept
      ]

  reclaim-NotClaimable :
      (now stale : ℕ) (db : JobStore)
      → NotClaimable db
      → NotClaimable (reclaim_stale_processing_jobs now stale db).0
  unfolding reclaim_stale_processing_jobs
  reclaim-NotClaimable now stale db q =
      let kept : filter (is_claimable team proj id)
            (update_where (is_stale (now - stale)) (reclaimed_row now) db.jobs)
          ≡ [] =
        filter-update_still_none (is_stale (now - stale)) (reclaimed_row now)
          (is_claimable team proj id) (λ r p k. ground arith) db.jobs q in
      elim (List-cases (returning (is_stale (now - stale)) (reclaimed_row now) db.jobs)) [
        | inl none_stale ↦ rw (none_stale, reclaim_stale_processing_jobs) kept
        | inr (j, js, some_stale) ↦ rw (some_stale, reclaim_stale_processing_jobs) kept
      ]

  run_op-NotClaimable :
      (op : Op) (db : JobStore)
      → LeavesQueueAlone id op
      → NotClaimable db
      → NotClaimable (run_op op db)
  unfolding run_op
  run_op-NotClaimable (create new_id now req) db h q = elim (create_job-adds new_id now req db) [
    | inl same ↦ rw same q
    | inr added ↦ rw added (unfold filter in grind tests)
  ]
  run_op-NotClaimable (claim now team' proj' id') db h q =
      unfold claim_job in
      filter-update_still_none (is_claimable team' proj' id') (claimed_row now)
        (is_claimable team proj id) (λ r p k. ground arith) db.jobs q
  run_op-NotClaimable (update_status now team' proj' id' s e n) db h q =
      unfold update_job_status in
      filter-update_still_none (in_scope team' proj' id') (updated_row now s e n)
        (is_claimable team proj id) (λ r p k. updated_row-not_claimable now s e n r k) db.jobs q
  run_op-NotClaimable (retry now team' proj' id' mode) db h q =
      reset-NotClaimable now team' proj' id' mode db h q
  run_op-NotClaimable (reclaim now stale) db h q = reclaim-NotClaimable now stale db q
  run_op-NotClaimable (upsert now req) db h q = unfold upsert_job_event in q

  run_ops-NotClaimable :
      (ops : List Op) (db : JobStore)
      → All (LeavesQueueAlone id) ops
      → NotClaimable db
      → NotClaimable (run_ops ops db)
  unfolding run_ops
  run_ops-NotClaimable [] db h q = q
  run_ops-NotClaimable (op ∷ ops) db h q =
      run_ops-NotClaimable ops (run_op op db) h.1 (run_op-NotClaimable op db h.0 q)

  -- After a claim of a job no later claim of it gets it or changes anything, whatever calls of the
  -- repository other workers, requests and sweeps make in between, as long as none of them is a
  -- retry of this job or draws its id for a new one.
  pub claim_job-exclusive :
      (now later : ℕ) (ops : List Op) (db : JobStore)
      → All (LeavesQueueAlone id) ops
      → claim_job later team proj id (run_ops ops (claim_job now team proj id db).0)
        ≡ (run_ops ops (claim_job now team proj id db).0, none)
  claim_job-exclusive now later ops db h =
      claim_job-none later (run_ops ops (claim_job now team proj id db).0) (
        run_ops-NotClaimable ops (claim_job now team proj id db).0 h
          (claim_job-NotClaimable now db))
