-- ===== src/Jobs/Create/Replay.antt =====
-- About the answers of `createJob` under an idempotency key.
use teamem_server.Prelude.{
  ℕ, ◌≤◌, ◌≡◌, refl, sym, ap, ◌∙◌, inl, inr, Bool, true, false, Option, none, some, String, List,
  [], ◌∷◌, ok, err, err-ne-ok, ok-injective, Result-cases, arith, tests, str_eq, first, any,
  Bool-cases, Option-cases, ltb, le→ltb_false, if◌then◌else◌,
}
use teamem_server.Table.{filter}
use teamem_server.Jobs.Rows.{JobRow, JobStore, CreateJobRequest}
use teamem_server.Jobs.Create.{
  Constraint, jobs_pkey, jobs_idempotency_uq, db_error, has_identity, insert_job, same_index_entry,
  new_row, insert_or_recover, create_job, find_existing, find_job_by_idempotency_key, truthy,
  resolve_existing, recover,
}
use teamem_server.Jobs.Create.Unique.{insert_job-eq-ok}

truthy-eq-some : (o : Option String) (key : String) → truthy o ≡ some key → o ≡ some key
unfolding truthy
truthy-eq-some none key h = cc
truthy-eq-some (some s) key h = ground arith

resolve_existing-eq-ok :
    (req : CreateJobRequest) (existing job : JobRow) (created : Bool)
    → resolve_existing req existing ≡ ok (job, created)
    → existing ≡ job
unfolding resolve_existing
resolve_existing-eq-ok req existing job created h = ground arith

pub find_existing-eq :
    (req : CreateJobRequest) (key : String) (db : JobStore)
    → truthy req.idempotency_key ≡ some key
    → find_existing req db ≡ find_job_by_idempotency_key db req.team_id req.project_id req.kind key
unfolding find_existing
find_existing-eq req key db h = rw (h, find_existing)

pub new_row-has_identity :
    (id : String) (now : ℕ) (req : CreateJobRequest) (key : String)
    → req.idempotency_key ≡ some key
    → has_identity req.team_id req.project_id req.kind key (new_row id now req) ≡ true
new_row-has_identity id now req key h = grind (tests, h)

-- The job just inserted is the one that its key finds.
find-insert_job :
    (id : String) (now : ℕ) (req : CreateJobRequest) (key : String) (db db' : JobStore)
    → truthy req.idempotency_key ≡ some key
    → insert_job (new_row id now req) db ≡ ok db'
    → find_job_by_idempotency_key db' req.team_id req.project_id req.kind key
      ≡ some (new_row id now req)
unfolding find_job_by_idempotency_key
find-insert_job id now req key db db' k e =
    let (_, _, same) = insert_job-eq-ok (new_row id now req) db db' e in
    rw (← same)
      (rw (new_row-has_identity id now req key (truthy-eq-some req.idempotency_key key k)))

any_of_first {ℓ} :
    {A : Type ℓ} (p q : A → Bool) (rs : List A) (r : A)
    → ((x : A) → p x ≡ true → q x ≡ true)
    → first (filter p rs) ≡ some r
    → any q rs ≡ true
unfolding filter
any_of_first p q [] r h e = cc
any_of_first p q (x ∷ rs) r h e = ground (arith, h x, any_of_first p q rs r h)

has_identity-same_index_entry :
    (id : String) (now : ℕ) (req : CreateJobRequest) (key : String) (r : JobRow)
    → req.idempotency_key ≡ some key
    → has_identity req.team_id req.project_id req.kind key r ≡ true
    → same_index_entry (new_row id now req) r ≡ true
has_identity-same_index_entry id now req key r k h = rw k (ground arith)

insert_job-taken :
    (id : String) (now : ℕ) (req : CreateJobRequest) (key : String) (db : JobStore)
    (existing : JobRow)
    → truthy req.idempotency_key ≡ some key
    → find_job_by_idempotency_key db req.team_id req.project_id req.kind key ≡ some existing
    → any (λ r. str_eq r.id id) db.jobs ≡ false
    → insert_job (new_row id now req) db ≡ err jobs_idempotency_uq
unfolding insert_job find_job_by_idempotency_key
insert_job-taken id now req key db existing k found fresh =
    let has_key = truthy-eq-some req.idempotency_key key k in
    rw (
      fresh,
      any_of_first (has_identity req.team_id req.project_id req.kind key)
          (same_index_entry (new_row id now req)) db.jobs existing
          (λ r. has_identity-same_index_entry id now req key r has_key) found,
    )

module _ (names_constraint : Constraint → Bool) where
  pub recover-eq-ok :
      (req : CreateJobRequest) (key : String) (violated : Constraint) (db : JobStore) (job : JobRow)
      (created : Bool)
      → truthy req.idempotency_key ≡ some key
      → recover names_constraint req violated db ≡ ok (job, created)
      → find_job_by_idempotency_key db req.team_id req.project_id req.kind key ≡ some job
  unfolding recover
  recover-eq-ok req key jobs_pkey db job created k h = cc
  recover-eq-ok req key jobs_idempotency_uq db job created k h =
      elim (Bool-cases (names_constraint jobs_idempotency_uq)) [
        | inr silent ↦ absurd (err-ne-ok (rw (silent, recover) at h))
        | inl named ↦
            elim (Option-cases
              (find_job_by_idempotency_key db req.team_id req.project_id req.kind key)) [
                | inl missing ↦ absurd (err-ne-ok (rw (named, k, missing, recover) at h))
                | inr (existing, found) ↦
                    found
                    ∙ ap some (
                        resolve_existing-eq-ok req existing job created
                          (rw (named, k, found, recover) at h))
              ]
      ]

  module _ (before_insert before_requery : JobStore → JobStore) where
    inserted :
        (id : String) (now : ℕ) (req : CreateJobRequest) (job : JobRow) (created : Bool)
        (db db' : JobStore)
        → insert_job (new_row id now req) db ≡ ok db'
        → (insert_or_recover names_constraint before_insert before_requery id now req db).1
          ≡ ok (job, created)
        → new_row id now req ≡ job
    unfolding insert_or_recover
    inserted id now req job created db db' e h =
        ap (λ (t : JobRow × Bool). t.0) (ok-injective (rw (e, insert_or_recover) at h))

    insert_or_recover-eq-ok :
        (id : String) (now : ℕ) (req : CreateJobRequest) (key : String) (db : JobStore)
        (job : JobRow) (created : Bool)
        → truthy req.idempotency_key ≡ some key
        → (insert_or_recover names_constraint before_insert before_requery id now req db).1
          ≡ ok (job, created)
        → find_job_by_idempotency_key
            (insert_or_recover names_constraint before_insert before_requery id now req db).0
            req.team_id
            req.project_id
            req.kind
            key
          ≡ some job
    insert_or_recover-eq-ok id now req key db job created k h =
        elim (Result-cases (insert_job (new_row id now req) db)) [
          | inl (db', e) ↦
              unfold insert_or_recover in
              rw (e, insert_or_recover)
                (find-insert_job id now req key db db' k e
                  ∙ ap some (inserted id now req job created db db' e h))
          | inr (violated, e) ↦
              unfold insert_or_recover in
              rw (e, insert_or_recover)
                (recover-eq-ok req key violated (before_requery db) job created k
                  (rw (e, insert_or_recover) at h))
        ]

    -- Whatever other callers commit meanwhile: if `createJob` under a truthy key returns a job, new or
    -- old, then in the store that it leaves that key finds just this job.
    pub find-create_job :
        (id : String) (now : ℕ) (req : CreateJobRequest) (key : String) (db : JobStore)
        (job : JobRow) (created : Bool)
        → truthy req.idempotency_key ≡ some key
        → (create_job names_constraint before_insert before_requery id now req db).1
          ≡ ok (job, created)
        → find_job_by_idempotency_key
            (create_job names_constraint before_insert before_requery id now req db).0
            req.team_id
            req.project_id
            req.kind
            key
          ≡ some job
    unfolding create_job
    find-create_job id now req key db job created k h = elim (Bool-cases (ltb req.event_count 1)) [
      | inl small ↦ absurd (err-ne-ok (rw small at h))
      | inr enough ↦ elim (Option-cases (find_existing req db)) [
        | inl missing ↦
            rw (enough, missing)
              (insert_or_recover-eq-ok id now req key (before_insert db) job created k
                (rw (enough, missing) at h))
        | inr (existing, found) ↦
            rw (enough, found)
              (sym (find_existing-eq req key db k)
                ∙ found
                ∙ ap some
                    (resolve_existing-eq-ok req existing job created (rw (enough, found) at h)))
      ]
    ]

  -- The caller that loses the race: its lookup finds nothing, another caller's job with its key is
  -- in the store when it inserts, and its new id is unused. If the driver's message names the
  -- violated index, the answer is again the replay or the conflict, and if it does not, the
  -- violation is thrown. The store is left to the other callers in either case.
  pub create_job-lost_race :
      (before_insert : JobStore → JobStore) (id : String) (now : ℕ) (req : CreateJobRequest)
      (key : String) (db : JobStore) (existing : JobRow)
      → 1 ≤ req.event_count
      → truthy req.idempotency_key ≡ some key
      → find_existing req db ≡ none
      → find_job_by_idempotency_key (before_insert db) req.team_id req.project_id req.kind key
        ≡ some existing
      → any (λ r. str_eq r.id id) (before_insert db).jobs ≡ false
      → create_job names_constraint before_insert (λ d. d) id now req db ≡ (
        before_insert db,
        (if names_constraint jobs_idempotency_uq
            then resolve_existing req existing
            else err (db_error jobs_idempotency_uq)),
      )
  unfolding create_job
  create_job-lost_race before_insert id now req key db existing n k missed found fresh =
      rw (le→ltb_false 1 req.event_count n, missed)
        (rw
          (
            insert_job-taken id now req key (before_insert db) existing k found fresh,
            insert_or_recover,
          )
          (rw (k, found, recover) refl))
