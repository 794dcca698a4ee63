-- ===== src/Ingest/Batch/Tests.antt =====
-- Runs of ingest/ingest-batch.ts.
use teamem_server.Prelude.{
  ℕ, ◌+◌, ◌≡◌, refl, Bool, true, false, err, str_eq, ltb, Option, none, some, String, List, [], ◌∷◌,
  ok, length, if◌then◌else◌,
}
use teamem_server.Concepts.Contract.{codes}
use teamem_server.Redact.{text, object, no_fields, field}
use teamem_server.Jobs.Rows.{BatchItemStatus, BatchItemResult, BatchResponse, ResultSnapshot}
use teamem_server.Jobs.Create.{Constraint}
use teamem_server.Jobs.Create.Alone.{alone}
use teamem_server.Jobs.RetryRoute.{Sent}
use teamem_server.Ingest.Events.{EventInsertRequest, StoredEvent}
use teamem_server.Ingest.One.{IngestOneAuth, Storage}
use teamem_server.Ingest.Batch.{
  JobStatement, link_event, complete_job, store_snapshot, conflict, BatchItem, IngestBatchRequest,
  Processed, BatchDrawn, answered, replayed, process_ingest_batch,
}

abbrev digit_text : ℕ → Option (List ℕ)
digit_text n = some ((48 + n) ∷ [])

abbrev digest : List ℕ → String
digest t = if ltb (length t) 50 then "short" else "long"

abbrev bytes_of : List ℕ → ℕ
bytes_of t = length t

abbrev date_of : List ℕ → ℕ
date_of t = length t

abbrev message_of : String → String
message_of id = id

abbrev all_there : EventInsertRequest → Bool
all_there req = true

abbrev nobody : List StoredEvent → List StoredEvent
nobody events = events

abbrev any_name : Constraint → Bool
any_name c = true

abbrev put : Sent → List Sent → List Sent
put m sent = m ∷ sent

abbrev run : BatchDrawn → IngestBatchRequest → IngestOneAuth → Storage → Processed
run =
    process_ingest_batch digest bytes_of digit_text date_of message_of all_there nobody nobody
      any_name alone alone (some put)

abbrev auth : IngestOneAuth
auth = record { team_id = "t1"; project_id = "p1"; credential_id = "c1"; principal_id = none }

abbrev empty : Storage
empty = record {
  events = [];
  backend = record { job_store = record { jobs = []; job_events = [] }; sent = [] };
}

abbrev first_ids : ℕ → String
first_ids i = if ltb i 1 then "evt_1" else "evt_2"

abbrev takes_all : JobStatement → Bool
takes_all s = false

abbrev first_draw : BatchDrawn
first_draw = record {
  now = 10;
  db_now = 11;
  event_id = first_ids;
  job_id = "job_1";
  message_id = "m1";
  request_id = some "req_1";
  refuses = takes_all;
}

abbrev second_draw : BatchDrawn
second_draw = record first_draw {
  event_id = (λ i. "evt_9");
  job_id = "job_9";
  message_id = "m9";
  request_id = some "req_2";
}

abbrev file : String → BatchItem
file key = record {
  external_id = "org/repo";
  url = none;
  actor = none;
  occurred_at = none;
  payload = object (field (codes "content") (text (codes "a <private>b</private>")) no_fields);
  item_key = key;
}

abbrev two_files : IngestBatchRequest
two_files = record {
  idempotency_key = "batch_01";
  events = file "a.ts" ∷ file "b.ts" ∷ [];
  compile = true;
}

abbrev stored_item : ℕ → String → BatchItemResult
stored_item i id = record {
  index = i;
  status = BatchItemStatus.accepted;
  event_id = some id;
  error = none;
}

abbrev first_response : BatchResponse
first_response = record {
  request_id = "req_1";
  batch_job_id = some "job_1";
  results = stored_item 0 "evt_1" ∷ stored_item 1 "evt_2" ∷ [];
}

replayed_test :
    run second_draw two_files auth (run first_draw two_files auth empty).0
    ≡ ((run first_draw two_files auth empty).0, ok (replayed (ResultSnapshot.batch first_response)))
unfolding process_ingest_batch
replayed_test = refl

-- The second event is gone when it is linked.
abbrev gone : JobStatement → Bool
gone (link_event id) = str_eq id "evt_2"
gone complete_job = false
gone store_snapshot = false

abbrev broken_draw : BatchDrawn
broken_draw = record first_draw { refuses = gone }

-- The first call answers with the job all the same, one event is linked, nothing is sent, and a second call conflicts.
half_made_test :
    ((run broken_draw two_files auth empty).1 ≡ ok (answered (ResultSnapshot.batch first_response)))
    × (length (run broken_draw two_files auth empty).0.backend.job_store.job_events ≡ 1)
    × ((run broken_draw two_files auth empty).0.backend.sent ≡ [])
    × ((run second_draw two_files auth (run broken_draw two_files auth empty).0).1
        ≡ err (conflict "job_1"))
unfolding process_ingest_batch
half_made_test = (refl, refl, refl, refl)

-- The events of a batch whose first call broke off before its job: a retry finds duplicates only, and makes no job.
abbrev only_known : Storage
only_known = record (run first_draw two_files auth empty).0 { backend = empty.backend }

all_known_test :
    (run second_draw two_files auth only_known).1
    ≡ ok (
        answered (
          ResultSnapshot.batch (record {
            request_id = "req_2";
            batch_job_id = none;
            results =
                record {
                  index = 0;
                  status = BatchItemStatus.duplicate;
                  event_id = some "evt_1";
                  error = none;
                }
                ∷ record {
                  index = 1;
                  status = BatchItemStatus.duplicate;
                  event_id = some "evt_2";
                  error = none;
                }
                ∷ [];
          })))
unfolding process_ingest_batch
all_known_test = refl
