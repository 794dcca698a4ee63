-- ===== src/Jobs/Create/Alone.antt =====
-- About `createJob` of db/repositories/jobs.ts where nobody else is at work and its key finds nothing.
use teamem_server.Prelude.{
  ℕ, ◌≡◌, refl, ◌∙◌, ◌⊎◌, inl, inr, Bool, true, none, some, String, ok, err, Result-cases,
  Bool-cases, ltb,
}
use teamem_server.Jobs.Rows.{JobStore, CreateJobRequest}
use teamem_server.Jobs.Create.{
  Constraint, jobs_pkey, jobs_idempotency_uq, Created, db_error, existing_not_found,
  event_count_too_small, insert_job, new_row, insert_or_recover, create_job,
  find_job_by_idempotency_key, truthy, recover,
}
use teamem_server.Jobs.Create.Replay.{find_existing-eq}

abbrev pub alone : JobStore → JobStore
alone db = db

-- Either the new job, or an error that is no conflict.
abbrev pub IsNewOrBroken : String → ℕ → CreateJobRequest → JobStore × Created → Type 0
IsNewOrBroken id now req answer =
    (answer.1 ≡ ok (new_row id now req, true))
    ⊎ ((answer.1 ≡ err existing_not_found)
        ⊎ (((n : ℕ) × (answer.1 ≡ err (event_count_too_small n)))
            ⊎ ((c : Constraint) × (answer.1 ≡ err (db_error c)))))

module _ (names_constraint : Constraint → Bool) (id : String) (now : ℕ) (req : CreateJobRequest)
    (key : String) where
  recover-IsNewOrBroken :
      (violated : Constraint) (db : JobStore)
      → truthy req.idempotency_key ≡ some key
      → find_job_by_idempotency_key db req.team_id req.project_id req.kind key ≡ none
      → IsNewOrBroken id now req (db, recover names_constraint req violated db)
  unfolding recover
  recover-IsNewOrBroken jobs_pkey db k missing = inr (inr (inr (jobs_pkey, refl)))
  recover-IsNewOrBroken jobs_idempotency_uq db k missing =
      elim (Bool-cases (names_constraint jobs_idempotency_uq)) [
        | inl shown ↦ inr (inl (rw (shown, k, missing, recover) refl))
        | inr silent ↦ inr (inr (inr (jobs_idempotency_uq, rw (silent, recover) refl)))
      ]

  insert-IsNewOrBroken :
      (db : JobStore)
      → truthy req.idempotency_key ≡ some key
      → find_job_by_idempotency_key db req.team_id req.project_id req.kind key ≡ none
      → IsNewOrBroken id now req (insert_or_recover names_constraint alone alone id now req db)
  unfolding insert_or_recover
  insert-IsNewOrBroken db k missing = elim (Result-cases (insert_job (new_row id now req) db)) [
    | inl (db', e) ↦ inl (rw (e, insert_or_recover) refl)
    | inr (violated, e) ↦ rw (e, insert_or_recover) (recover-IsNewOrBroken violated db k missing)
  ]

  -- With nobody else at work, and a truthy key that finds no job: `createJob` returns the new job, or throws an error
  -- that is no conflict.
  pub create_job-IsNewOrBroken :
      (db : JobStore)
      → truthy req.idempotency_key ≡ some key
      → find_job_by_idempotency_key db req.team_id req.project_id req.kind key ≡ none
      → IsNewOrBroken id now req (create_job names_constraint alone alone id now req db)
  unfolding create_job
  create_job-IsNewOrBroken db k missing = elim (Bool-cases (ltb req.event_count 1)) [
    | inl small ↦ inr (inr (inl (req.event_count, rw (small, create_job) refl)))
    | inr enough ↦
        rw (enough, find_existing-eq req key db k ∙ missing, create_job)
          (insert-IsNewOrBroken db k missing)
  ]
