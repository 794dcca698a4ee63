-- ===== src/Ingest/Compilations/Fresh.antt =====
-- About the row that is new under a key, for ingest/create-compilation.ts.
use teamem_server.Prelude.{
  ℕ, ◌≡◌, refl, sym, ap, ◌∙◌, inl, inr, Bool, true, none, some, String, List, [], ◌∷◌, ok,
  err-ne-ok, ok-injective, Result-cases, Bool-cases, none-ne-some, first, ltb,
}
use teamem_server.Table.{filter}
use teamem_server.Jobs.Rows.{JobRow, JobStore, CreateJobRequest}
use teamem_server.Jobs.Create.{
  Constraint, create_job, insert_job, insert_or_recover, find_job_by_idempotency_key, has_identity,
  new_row, truthy,
}
use teamem_server.Jobs.Create.Unique.{insert_job-eq-ok}
use teamem_server.Jobs.Create.Replay.{recover-eq-ok, find_existing-eq}
use teamem_server.Jobs.Lifecycle.{upsert_job_event}
use teamem_server.Jobs.Enqueue.{EnqueueRequest, pending_request, upsert_events}

abbrev pub alone : JobStore → JobStore
alone db = db

-- With nobody else at work, a job that is returned where none had the key is the new one.
pub create_job_new :
    (names : Constraint → Bool) (id : String) (now : ℕ) (req : CreateJobRequest) (key : String)
    (db : JobStore) (job : JobRow) (made : Bool)
    → truthy req.idempotency_key ≡ some key
    → find_job_by_idempotency_key db req.team_id req.project_id req.kind key ≡ none
    → (create_job names alone alone id now req db).1 ≡ ok (job, made)
    → (new_row id now req ≡ job)
      × (true ≡ made)
      × ((create_job names alone alone id now req db).0
          ≡ record db { jobs = new_row id now req ∷ db.jobs })
unfolding create_job insert_or_recover
create_job_new names id now req key db job made k missing h =
    let unseen = find_existing-eq req key db k ∙ missing in
    elim (Bool-cases (ltb req.event_count 1)) [
      | inl small ↦ absurd (err-ne-ok (rw small at h))
      | inr enough ↦ elim (Result-cases (insert_job (new_row id now req) db)) [
        | inr (violated, e) ↦ absurd (
            none-ne-some (
              sym missing
              ∙ recover-eq-ok names req key violated db job made k
                  (rw (enough, unseen, e, insert_or_recover) at h)))
        | inl (db', e) ↦
            let same = ok-injective (rw (enough, unseen, e, insert_or_recover) at h) in
            let (_, _, grown) = insert_job-eq-ok (new_row id now req) db db' e in
            (
              ap (λ (p : JobRow × Bool). p.0) same,
              ap (λ (p : JobRow × Bool). p.1) same,
              rw (enough, unseen, e, insert_or_recover) (sym grown),
            )
      ]
    ]

-- The key finds a job with this id, and with the hash and the snapshot of the request.
abbrev pub HasJob : EnqueueRequest → String → String → JobStore → Type 0
HasJob req key id db =
    (job : JobRow) × (find_job_by_idempotency_key db req.team_id req.project_id req.kind key
      ≡ some job)
    × (job.id ≡ id)
    × (job.idempotency_request_hash ≡ req.idempotency_request_hash)
    × (job.result_snapshot ≡ req.result_snapshot)

pub jobs-upsert_events :
    (now : ℕ) (req : EnqueueRequest) (job : String) (evs : List String) (db : JobStore)
    → JobStore.jobs (upsert_events now req job evs db) ≡ db.jobs
unfolding upsert_events upsert_job_event
jobs-upsert_events now req job [] db = refl
jobs-upsert_events now req job (ev ∷ evs) db =
    jobs-upsert_events now req job evs (upsert_job_event now (pending_request req job ev) db)

-- A new row in front of the table is what its key finds.
pub find-first_row :
    (req : EnqueueRequest) (key : String) (db : JobStore) (row : JobRow) (rows : List JobRow)
    → db.jobs ≡ row ∷ rows
    → has_identity req.team_id req.project_id req.kind key row ≡ true
    → find_job_by_idempotency_key db req.team_id req.project_id req.kind key ≡ some row
unfolding find_job_by_idempotency_key filter
find-first_row req key db row rows e h =
    ap (λ l. first (filter (has_identity req.team_id req.project_id req.kind key) l)) e ∙ rw h refl
