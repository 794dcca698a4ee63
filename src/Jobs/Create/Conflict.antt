-- ===== src/Jobs/Create/Conflict.antt =====
-- About the conflicts that `createJob` of db/repositories/jobs.ts reports: the job that they name.
use teamem_server.Prelude.{
  ℕ, ◌≡◌, sym, ◌∙◌, inl, inr, Bool, some, String, err, err-ne-ok, Result-cases, arith, Bool-cases,
  Option-cases, ltb,
}
use teamem_server.Jobs.Rows.{JobRow, JobStore, CreateJobRequest}
use teamem_server.Jobs.Create.{
  Constraint, Created, jobs_pkey, jobs_idempotency_uq, db_error, existing_not_found,
  event_count_too_small, idempotency_conflict, insert_job, new_row, insert_or_recover, create_job,
  find_existing, find_job_by_idempotency_key, truthy, resolve_existing, recover,
}
use teamem_server.Jobs.Create.Replay.{find_existing-eq}

-- The job with the id that a conflict names, found under the key.
abbrev pub IsNamed : CreateJobRequest → String → String → JobStore → Type 0
IsNamed req key named db =
    (job : JobRow) × ((find_job_by_idempotency_key db req.team_id req.project_id req.kind key
        ≡ some job)
      × (job.id ≡ named))

resolve_existing-eq-err :
    (req : CreateJobRequest) (existing : JobRow) (named : String)
    → resolve_existing req existing ≡ err (idempotency_conflict named)
    → existing.id ≡ named
unfolding resolve_existing
resolve_existing-eq-err req existing named h = ground arith

module _ (names_constraint : Constraint → Bool) where
  recover-eq-err :
      (req : CreateJobRequest) (key : String) (violated : Constraint) (db : JobStore)
      (named : String)
      → truthy req.idempotency_key ≡ some key
      → recover names_constraint req violated db ≡ err (idempotency_conflict named)
      → IsNamed req key named db
  unfolding recover
  recover-eq-err req key jobs_pkey db named k h = cc
  recover-eq-err req key jobs_idempotency_uq db named k h =
      elim (Bool-cases (names_constraint jobs_idempotency_uq)) [
        | inr silent ↦ absurd (other_error (rw (silent, recover) at h))
        | inl shown ↦
            elim (Option-cases
              (find_job_by_idempotency_key db req.team_id req.project_id req.kind key)) [
                | inl missing ↦ absurd (not_there (rw (shown, k, missing, recover) at h))
                | inr (existing, found) ↦ (
                  existing,
                  (
                    found,
                    resolve_existing-eq-err req existing named (rw (shown, k, found, recover) at h),
                  ),
                )
              ]
      ]
    where
      other_error :
          ◌≡◌ {A = Created} (err (db_error jobs_idempotency_uq)) (err (idempotency_conflict named))
          → ⊥
      other_error h = cc

      not_there : ◌≡◌ {A = Created} (err existing_not_found) (err (idempotency_conflict named)) → ⊥
      not_there h = cc

  module _ (before_insert before_requery : JobStore → JobStore) where
    insert_or_recover-eq-err :
        (id : String) (now : ℕ) (req : CreateJobRequest) (key : String) (db : JobStore)
        (named : String)
        → truthy req.idempotency_key ≡ some key
        → (insert_or_recover names_constraint before_insert before_requery id now req db).1
          ≡ err (idempotency_conflict named)
        → IsNamed req key named
            (insert_or_recover names_constraint before_insert before_requery id now req db).0
    unfolding insert_or_recover
    insert_or_recover-eq-err id now req key db named k h =
        elim (Result-cases (insert_job (new_row id now req) db)) [
          | inl (db', e) ↦ absurd (err-ne-ok (sym (rw (e, insert_or_recover) at h)))
          | inr (violated, e) ↦
              rw (e, insert_or_recover)
                (recover-eq-err req key violated (before_requery db) named k
                  (rw (e, insert_or_recover) at h))
        ]

    -- Whatever other callers commit meanwhile: if `createJob` under a truthy key reports a conflict, then in the store
    -- that it leaves that key finds the job that the conflict names.
    pub create_job-IsNamed :
        (id : String) (now : ℕ) (req : CreateJobRequest) (key : String) (db : JobStore)
        (named : String)
        → truthy req.idempotency_key ≡ some key
        → (create_job names_constraint before_insert before_requery id now req db).1
          ≡ err (idempotency_conflict named)
        → IsNamed req key named
            (create_job names_constraint before_insert before_requery id now req db).0
    unfolding create_job
    create_job-IsNamed id now req key db named k h = elim (Bool-cases (ltb req.event_count 1)) [
      | inl small ↦ absurd (too_small (rw (small, create_job) at h))
      | inr enough ↦ elim (Option-cases (find_existing req db)) [
        | inl missing ↦
            rw (enough, missing, create_job)
              (insert_or_recover-eq-err id now req key (before_insert db) named k
                (rw (enough, missing, create_job) at h))
        | inr (existing, found) ↦
            rw (enough, found, create_job)
              (
                existing,
                (
                  sym (find_existing-eq req key db k) ∙ found,
                  resolve_existing-eq-err req existing named (rw (enough, found, create_job) at h),
                ),
              )
      ]
    ]
      where
        too_small :
            ◌≡◌ {A = Created}
              (err (event_count_too_small req.event_count))
              (err (idempotency_conflict named))
            → ⊥
        too_small h = cc
