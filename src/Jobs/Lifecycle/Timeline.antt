-- ===== src/Jobs/Lifecycle/Timeline.antt =====
-- The timestamps and the error of a job row beside its status.
use teamem_server.Prelude.{
  ℕ, ◌-◌, ◌≡◌, ◌≢◌, ◌⊎◌, inl, inr, Option, none, String, List, [], ◌∷◌, arith, first, All,
  Option-cases, List-cases,
}
use teamem_server.Table.{update_where, returning, All-update_where}
use teamem_server.Jobs.Rows.{
  ErrorInfo, ResultSnapshot, JobRow, JobStore, CreateJobRequest, queued, processing, completed,
  failed, cancelled, in_scope,
}
use teamem_server.Jobs.Create.{new_row}
use teamem_server.Jobs.Lifecycle.{
  NextStatus, to_processing, RetryMode, is_claimable, claimed_row, claim_job, updated_row,
  update_job_status, is_retryable, requeued_row, reset_job_for_retry, is_stale, reclaimed_row,
  reclaim_stale_processing_jobs, upsert_job_event,
}
use teamem_server.Jobs.Lifecycle.Ops.{
  Op, create, claim, update_status, retry, reclaim, upsert, run_op, run_ops, create_job-adds,
}

-- A queued job has no start, no finish and no error; a processing job has a start; a completed,
-- failed or cancelled job has a finish.
pub record IsConsistent (r : JobRow) : Type 0 where
  pub fresh : r.status ≡ queued → (r.started_at ≡ none) × (r.finished_at ≡ none) × (r.error ≡ none)
  pub started : r.status ≡ processing → r.started_at ≢ none
  pub finished :
      (r.status ≡ completed) ⊎ (r.status ≡ failed) ⊎ (r.status ≡ cancelled) → r.finished_at ≢ none

claimed_row-IsConsistent : (now : ℕ) (r : JobRow) → IsConsistent (claimed_row now r)
claimed_row-IsConsistent now r = ground arith

updated_row-IsConsistent :
    (now : ℕ) (s : NextStatus) (e : Option (Option ErrorInfo)) (n : Option (Option ResultSnapshot))
    (r : JobRow)
    → IsConsistent (updated_row now s e n r)
updated_row-IsConsistent now to_processing e n r = ground arith
updated_row-IsConsistent now s e n r = ground arith

requeued_row-IsConsistent : (r : JobRow) → IsConsistent (requeued_row r)
requeued_row-IsConsistent r = ground arith

reclaimed_row-IsConsistent : (now : ℕ) (r : JobRow) → IsConsistent (reclaimed_row now r)
reclaimed_row-IsConsistent now r = ground arith

new_row-IsConsistent :
    (id : String) (now : ℕ) (req : CreateJobRequest) → IsConsistent (new_row id now req)
new_row-IsConsistent id now req = ground arith

reset-IsConsistent :
    (now : ℕ) (team proj id : String) (mode : RetryMode) (db : JobStore)
    → All IsConsistent db.jobs
    → All IsConsistent (reset_job_for_retry now team proj id mode db).0.jobs
unfolding reset_job_for_retry
reset-IsConsistent now team proj id mode db a =
    let kept : All IsConsistent (update_where (is_retryable team proj id) requeued_row db.jobs) =
      All-update_where (is_retryable team proj id) requeued_row IsConsistent
        (λ r p c. requeued_row-IsConsistent r) db.jobs a in
    elim (Option-cases (first (returning (is_retryable team proj id) requeued_row db.jobs))) [
      | inl lost ↦ rw (lost, reset_job_for_retry) kept
      | inr (job, won) ↦ rw (won, reset_job_for_retry) kept
    ]

reclaim-IsConsistent :
    (now stale : ℕ) (db : JobStore)
    → All IsConsistent db.jobs
    → All IsConsistent (reclaim_stale_processing_jobs now stale db).0.jobs
unfolding reclaim_stale_processing_jobs
reclaim-IsConsistent now stale db a =
    let kept : All IsConsistent
        (update_where (is_stale (now - stale)) (reclaimed_row now) db.jobs) =
      All-update_where (is_stale (now - stale)) (reclaimed_row now) IsConsistent
        (λ r p c. reclaimed_row-IsConsistent now r) db.jobs a in
    elim (List-cases (returning (is_stale (now - stale)) (reclaimed_row now) db.jobs)) [
      | inl none_stale ↦ rw (none_stale, reclaim_stale_processing_jobs) kept
      | inr (j, js, some_stale) ↦ rw (some_stale, reclaim_stale_processing_jobs) kept
    ]

run_op-IsConsistent :
    (op : Op) (db : JobStore) → All IsConsistent db.jobs → All IsConsistent (run_op op db).jobs
unfolding run_op claim_job update_job_status upsert_job_event
run_op-IsConsistent (create id now req) db a = elim (create_job-adds id now req db) [
  | inl same ↦ rw same a
  | inr added ↦ rw added (new_row-IsConsistent id now req, a)
]
run_op-IsConsistent (claim now team proj id) db a =
    All-update_where (is_claimable team proj id) (claimed_row now) IsConsistent
      (λ r p c. claimed_row-IsConsistent now r) db.jobs a
run_op-IsConsistent (update_status now team proj id s e n) db a =
    All-update_where (in_scope team proj id) (updated_row now s e n) IsConsistent
      (λ r p c. updated_row-IsConsistent now s e n r) db.jobs a
run_op-IsConsistent (retry now team proj id mode) db a =
    reset-IsConsistent now team proj id mode db a
run_op-IsConsistent (reclaim now stale) db a = reclaim-IsConsistent now stale db a
run_op-IsConsistent (upsert now req) db a = a

-- If every row is consistent, then after any sequence of calls of the repository, in any order and
-- with any arguments, every row still is.
pub run_ops-IsConsistent :
    (ops : List Op) (db : JobStore)
    → All IsConsistent db.jobs
    → All IsConsistent (run_ops ops db).jobs
unfolding run_ops
run_ops-IsConsistent [] db a = a
run_ops-IsConsistent (op ∷ ops) db a =
    run_ops-IsConsistent ops (run_op op db) (run_op-IsConsistent op db a)
