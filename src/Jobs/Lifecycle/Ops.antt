-- ===== src/Jobs/Lifecycle/Ops.antt =====
-- The calls of the job repository as one data type, so that a theorem can speak of every order in
-- which workers, requests and the sweep make them.
use teamem_server.Prelude.{
  ℕ, ◌≡◌, refl, sym, ◌⊎◌, inl, inr, true, Option, String, List, [], ◌∷◌, Result-cases, Option-cases,
  Bool-cases, ltb,
}
use teamem_server.Jobs.Rows.{
  ErrorInfo, ResultSnapshot, JobStore, CreateJobRequest, UpsertJobEventRequest,
}
use teamem_server.Jobs.Create.{create_job, new_row, insert_job, insert_or_recover, find_existing}
use teamem_server.Jobs.Create.Unique.{insert_job-eq-ok}
use teamem_server.Jobs.Lifecycle.{
  NextStatus, RetryMode, claim_job, update_job_status, reset_job_for_retry,
  reclaim_stale_processing_jobs, upsert_job_event,
}

pub data Op : Type 0 where
  create : String → ℕ → CreateJobRequest → Op
  claim : ℕ → String → String → String → Op
  update_status :
      ℕ
      → String
      → String
      → String
      → NextStatus
      → Option (Option ErrorInfo)
      → Option (Option ResultSnapshot)
      → Op
  retry : ℕ → String → String → String → RetryMode → Op
  reclaim : ℕ → ℕ → Op
  upsert : ℕ → UpsertJobEventRequest → Op

unfoldable pub run_op : Op → JobStore → JobStore
run_op (create id now req) db = (create_job (λ c. true) (λ d. d) (λ d. d) id now req db).0
run_op (claim now team proj id) db = (claim_job now team proj id db).0
run_op (update_status now team proj id status error snapshot) db =
    (update_job_status now team proj id status error snapshot db).0
run_op (retry now team proj id mode) db = (reset_job_for_retry now team proj id mode db).0
run_op (reclaim now stale_after_ms) db = (reclaim_stale_processing_jobs now stale_after_ms db).0
run_op (upsert now req) db = upsert_job_event now req db

unfoldable pub run_ops : List Op → JobStore → JobStore
unfolding run_op
run_ops [] db = db
run_ops (op ∷ ops) db = run_ops ops (run_op op db)

-- A call of `createJob` with no other caller between its statements adds the new row or nothing.
pub create_job-adds :
    (id : String) (now : ℕ) (req : CreateJobRequest) (db : JobStore)
    → ((create_job (λ c. true) (λ d. d) (λ d. d) id now req db).0 ≡ db)
      ⊎ ((create_job (λ c. true) (λ d. d) (λ d. d) id now req db).0
          ≡ record db { jobs = new_row id now req ∷ db.jobs })
unfolding create_job
create_job-adds id now req db = elim (Bool-cases (ltb req.event_count 1)) [
  | inl small ↦ rw small (inl refl)
  | inr enough ↦ elim (Option-cases (find_existing req db)) [
    | inr (existing, found) ↦ rw (enough, found) (inl refl)
    | inl missing ↦ elim (Result-cases (insert_job (new_row id now req) db)) [
      | inr (violated, e) ↦ rw (enough, missing) (rw (e, insert_or_recover) (inl refl))
      | inl (db', e) ↦
          let (_, _, same) = insert_job-eq-ok (new_row id now req) db db' e in
          rw (enough, missing) (rw (e, insert_or_recover) (inr (sym same)))
    ]
  ]
]
