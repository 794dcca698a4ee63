-- ===== src/Ingest/Batch/Again.antt =====
-- A batch of ingest/ingest-batch.ts that is sent again.
use teamem_server.Prelude.{
  ℕ, ◌≡◌, ◌⊎◌, false, Bool, true, Option, none, some, String, List, ok, err, length,
}
use teamem_server.Jobs.Rows.{JobRow, JobStore, ResultSnapshot, BatchResponse, ingest_batch}
use teamem_server.Jobs.Create.{
  Constraint, Created, truthy, create_job, find_job_by_idempotency_key, new_row,
}
use teamem_server.Jobs.Create.Alone.{alone}
use teamem_server.Jobs.RetryRoute.{Sent}
use teamem_server.Ingest.Events.{EventInsertRequest, StoredEvent}
use teamem_server.Ingest.One.{IngestOneAuth, Storage}
use teamem_server.Ingest.Batch.{
  IngestBatchRequest, ProcessedItem, conflict, ProcessBatchResult, Processed, Stored, BatchDrawn,
  job_request, with_snapshot, JobStatement, replayed, process_items, insert_items, after_create,
  hashed_batch, process_ingest_batch,
}

-- A statement on the job was refused.
abbrev IsRefused : BatchDrawn → Type 0
IsRefused drawn = (s : JobStatement) × (drawn.refuses s ≡ true)

abbrev job_named : ResultSnapshot → Option String
job_named (ResultSnapshot.batch response) = response.batch_job_id
job_named (ResultSnapshot.counts ids a b c) = none
job_named (ResultSnapshot.results rs) = none

-- The job of a batch after its statements: found with the response in its snapshot if all were made, and as it was if
-- one was refused.
abbrev IsSettled :
    BatchDrawn → IngestOneAuth → String → ResultSnapshot → JobRow → JobStore × Bool → Type 0
IsSettled drawn auth key response job (db, made) =
    ((made ≡ true)
      × (find_job_by_idempotency_key db auth.team_id auth.project_id ingest_batch key
          ≡ some (with_snapshot response job)))
    ⊎ ((made ≡ false)
        × (find_job_by_idempotency_key db auth.team_id auth.project_id ingest_batch key ≡ some job)
        × IsRefused drawn)

module _ (sha256 : List ℕ → String) (utf8_length : List ℕ → ℕ) (atom_text : ℕ → Option (List ℕ))
    (read_date : List ℕ → ℕ) (message : String → String) (has_parents : EventInsertRequest → Bool)
    (before_insert before_requery : List StoredEvent → List StoredEvent)
    (names_constraint : Constraint → Bool) (send : Option (Sent → List Sent → List Sent)) where
  abbrev process : BatchDrawn → IngestBatchRequest → IngestOneAuth → Storage → Processed
  process =
      process_ingest_batch sha256 utf8_length atom_text read_date message has_parents before_insert
        before_requery names_constraint alone alone send

  abbrev continued :
      BatchDrawn → String → IngestOneAuth → Stored → List Sent → JobStore × Created → Processed
  continued drawn key auth stored sent created =
      after_create sha256 utf8_length atom_text read_date message has_parents before_insert
        before_requery names_constraint alone alone send drawn key auth true stored sent created

  -- The answer is a new response that names a job.
  abbrev NamesJob : ProcessBatchResult → Type 0
  NamesJob r =
      (response : BatchResponse) × ((r.reply.response ≡ ResultSnapshot.batch response)
        × ((id : String) × (response.batch_job_id ≡ some id)))

  -- The table of jobs finds, under the key, a job with the batch's hash and the answer in its snapshot.
  abbrev IsKept : IngestOneAuth → String → String → ProcessBatchResult → JobStore → Type 0
  IsKept auth key batch_hash r db =
      (job : JobRow) × ((find_job_by_idempotency_key db auth.team_id auth.project_id ingest_batch
            key
          ≡ some job)
        × ((job.idempotency_request_hash ≡ some batch_hash)
            × (job.result_snapshot ≡ some r.reply.response)))

  -- It finds a job that the answer names and that has no snapshot, since a statement on it was refused.
  abbrev IsHalfMade : IngestOneAuth → String → BatchDrawn → ProcessBatchResult → JobStore → Type 0
  IsHalfMade auth key drawn r db =
      (job : JobRow) × (find_job_by_idempotency_key db auth.team_id auth.project_id ingest_batch key
        ≡ some job)
      × (job.result_snapshot ≡ none)
      × (job_named r.reply.response ≡ some job.id)
      × IsRefused drawn

  abbrev IsStored :
      IngestOneAuth → String → String → BatchDrawn → ProcessBatchResult → JobStore → Type 0
  IsStored auth key batch_hash drawn r db =
      IsKept auth key batch_hash r db ⊎ IsHalfMade auth key drawn r db

  abbrev new_job : BatchDrawn → IngestOneAuth → String → String → ℕ → JobRow
  new_job drawn auth key batch_hash n =
      new_row drawn.job_id drawn.db_now (job_request auth key batch_hash n)

  module _ (auth : IngestOneAuth) (req : IngestBatchRequest) (compiles : req.compile ≡ true)
      (keyed : truthy (some req.idempotency_key) ≡ some req.idempotency_key) where
    abbrev processed_items : Option (List ProcessedItem × List ℕ)
    processed_items =
        hashed_batch sha256 utf8_length atom_text read_date message has_parents before_insert
          before_requery names_constraint alone alone send
          (process_items sha256 utf8_length atom_text read_date message has_parents before_insert
            before_requery names_constraint alone alone send req.events)

    abbrev found_job : Storage → Option JobRow
    found_job db =
        find_job_by_idempotency_key db.backend.job_store auth.team_id auth.project_id ingest_batch
          req.idempotency_key

    abbrev inserted_items : BatchDrawn → List ProcessedItem → Storage → Stored
    inserted_items drawn pis db =
        insert_items sha256 utf8_length atom_text read_date message has_parents before_insert
          before_requery names_constraint alone alone send drawn req.idempotency_key auth 0 pis
          db.events

    abbrev run_fresh : BatchDrawn → List ProcessedItem → List ℕ → Storage → Processed
    run_fresh drawn pis hashed db =
        continued drawn req.idempotency_key auth (inserted_items drawn pis db) db.backend.sent (
          create_job names_constraint alone alone drawn.job_id drawn.db_now
            (job_request auth req.idempotency_key (sha256 hashed)
              (length (inserted_items drawn pis db).accepted))
            db.backend.job_store)

    -- The answers that a batch gets when it is sent again: the first one as a duplicate, or, where the database refused a
    -- statement on the first one's job, a conflict with that job.
    abbrev pub IsAnsweredAgain : BatchDrawn → BatchDrawn → ProcessBatchResult → Processed → Type 0
    IsAnsweredAgain drawn later r before =
        (process later req auth before.0 ≡ (before.0, ok (replayed r.reply.response)))
        ⊎ ((id : String) × (job_named r.reply.response ≡ some id)
            × IsRefused drawn
            × (process later req auth before.0 ≡ (before.0, err (conflict id))))
