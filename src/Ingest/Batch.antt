-- ===== src/Ingest/Batch.antt =====
-- `processIngestBatch`, ingest/ingest-batch.ts, with the hash of security/payload-hash.ts. `read_date` is what
-- `new Date` makes of a text, and `event_id` the id that is drawn for each item; the other arguments are those of
-- Ingest/One. Others commit only inside of `insertEvent` and `createJob`.
pub mod Again
mod Tests
use teamem_server.Prelude.{
  ℕ, zero, suc, ◌+◌, Bool, true, false, ◌&&◌, Option, none, some, String, List, [], ◌∷◌, Result, ok,
  err, length, str_eq, col_eq, if◌then◌else◌,
}
use teamem_server.Table.{update_where}
use teamem_server.Concepts.Contract.{codes}
use teamem_server.Concepts.Rows.{client_claimed, unknown}
use teamem_server.Compile.Events.{cli_init}
use teamem_server.Redact.{
  Json, text, array, object, Items, no_items, item, Fields, no_fields, field, strip_private_tags,
}
use teamem_server.Canonical.{canonical_json}
use teamem_server.Jobs.Rows.{
  ingest_batch, credential, JobStatus, JobRow, JobStore, CreateJobRequest, JobEventStatus,
  UpsertJobEventRequest, ErrorInfo, ResultSnapshot, BatchItemStatus, BatchItemResult, BatchResponse,
}
use teamem_server.Jobs.Create.{
  Constraint, CreateError, Created, create_job, find_job_by_idempotency_key,
}
use teamem_server.Jobs.Lifecycle.{upsert_job_event}
use teamem_server.Jobs.RetryRoute.{Sent, Backend}
use teamem_server.Ingest.Events.{
  EventInsertRequest, EventInsertResult, StoredEvent, InsertStatus, InsertError, Inserted,
  OccurredAtProvenance, insert_event,
}
use teamem_server.Ingest.One.{IngestOneAuth, Storage}

pub record BatchItem : Type 0 where
  pub external_id : String
  pub url : Option String
  pub actor : Option Json
  pub occurred_at : Option (List ℕ)
  pub payload : Json
  pub item_key : String

pub record IngestBatchRequest : Type 0 where
  pub idempotency_key : String
  pub events : List BatchItem
  pub compile : Bool

-- An item with its redacted payload and the canonical text of that.
pub record ProcessedItem : Type 0 where
  pub source : BatchItem
  pub redacted_payload : Json
  pub canonical : List ℕ

pub data BatchError : Type 0 where
  unsupported_value : BatchError
  conflict : String → BatchError

-- The answer: a response, new or stored, and whether it is called a duplicate.
pub record BatchReply : Type 0 where
  pub response : ResultSnapshot
  pub duplicate : Bool

pub record ProcessBatchResult : Type 0 where
  pub reply : BatchReply
  pub created : Bool

abbrev pub Processed : Type 0
Processed = Storage × Result BatchError ProcessBatchResult

abbrev pub text_field : String → Option (List ℕ) → Fields → Fields
text_field key none fields = fields
text_field key (some s) fields = field (codes key) (text s) fields

abbrev pub json_field : String → Option Json → Fields → Fields
json_field key none fields = fields
json_field key (some v) fields = field (codes key) v fields

abbrev pub codes_of : Option String → Option (List ℕ)
codes_of none = none
codes_of (some s) = some (codes s)

-- One entry of `eventsForHash`.
abbrev pub hashed_item : ProcessedItem → Json
hashed_item pi = object (
    field (codes "k") (text (codes pi.source.item_key)) (
      field (codes "e") (text (codes pi.source.external_id)) (
        text_field "u" (codes_of pi.source.url) (
          json_field "a" pi.source.actor (
            text_field "t" pi.source.occurred_at
              (field (codes "p") pi.redacted_payload no_fields))))))

abbrev pub hashed_items : List ProcessedItem → Items
hashed_items [] = no_items
hashed_items (pi ∷ pis) = item (hashed_item pi) (hashed_items pis)

abbrev pub item_rejected : ℕ → String → String → BatchItemResult
item_rejected i c m = record {
  index = i;
  status = BatchItemStatus.rejected;
  event_id = none;
  error = some (record { code = c; message = m });
}

abbrev pub item_status : InsertStatus → BatchItemStatus
item_status InsertStatus.inserted = BatchItemStatus.accepted
item_status InsertStatus.duplicate = BatchItemStatus.duplicate

-- The result of an item, on what `insertEvent` returned or threw. `message` is the text of a conflict.
unfoldable pub item_result :
    (String → String) → ℕ → Result InsertError EventInsertResult → BatchItemResult
item_result message i (ok r) = record {
  index = i;
  status = item_status r.status;
  event_id = some r.event_id;
  error = none;
}
item_result message i (err (InsertError.idempotency_conflict id)) =
    item_rejected i "idempotency_conflict" (message id)
item_result message i (err (InsertError.db_error c)) =
    item_rejected i "internal" "Event insert failed"

abbrev pub if_inserted : InsertStatus → String → List String → List String
if_inserted InsertStatus.inserted id ids = id ∷ ids
if_inserted InsertStatus.duplicate id ids = ids

-- `acceptedEventIds.push(…)`
unfoldable pub accepted_ids : Result InsertError EventInsertResult → List String → List String
accepted_ids (ok r) ids = if_inserted r.status r.event_id ids
accepted_ids (err e) ids = ids

-- What the loop over the items leaves: the table, the results, and the ids of the new events.
pub record Stored : Type 0 where
  pub rows : List StoredEvent
  pub item_results : List BatchItemResult
  pub accepted : List String

-- The statements on the job of a batch.
pub data JobStatement : Type 0 where
  link_event : String → JobStatement
  complete_job store_snapshot : JobStatement

-- What the code draws from outside: its clock and the database's, new ids, and which statements on the job the
-- database refuses, as it does for a link to an event that is gone (job_events_event_fk).
pub record BatchDrawn : Type 0 where
  pub now : ℕ
  pub db_now : ℕ
  pub event_id : ℕ → String
  pub job_id : String
  pub message_id : String
  pub request_id : Option String
  pub refuses : JobStatement → Bool

abbrev pub job_request : IngestOneAuth → String → String → ℕ → CreateJobRequest
job_request auth key batch_hash count = record {
  team_id = auth.team_id;
  project_id = auth.project_id;
  kind = ingest_batch;
  initiated_by_kind = credential;
  initiated_by_credential_id = some auth.credential_id;
  initiated_by_principal_id = auth.principal_id;
  initiated_by_connector = none;
  idempotency_key = some key;
  idempotency_request_hash = some batch_hash;
  result_snapshot = none;
  event_count = count;
}

abbrev pub pending_event : IngestOneAuth → String → String → UpsertJobEventRequest
pending_event auth job_id event_id = record {
  team_id = auth.team_id;
  project_id = auth.project_id;
  job_id = job_id;
  event_id = event_id;
  status = JobEventStatus.pending;
  reason = none;
  error = none;
  concept_uuids = none;
}

abbrev pub batch_message : String → IngestOneAuth → String → Sent
batch_message message_id auth job_id = record {
  message_id = message_id;
  job_id = job_id;
  team_id = auth.team_id;
  project_id = auth.project_id;
  kind = ingest_batch;
}

abbrev pub is_batch_job : IngestOneAuth → String → JobRow → Bool
is_batch_job auth job_id r =
    str_eq r.id job_id && (str_eq r.team_id auth.team_id && str_eq r.project_id auth.project_id)

-- The UPDATE of a job that will not be queued, and that of the snapshot.
abbrev pub completed_row : ℕ → JobRow → JobRow
completed_row now r = record r { status = JobStatus.completed; finished_at = some now }

abbrev pub with_snapshot : ResultSnapshot → JobRow → JobRow
with_snapshot response r = record r { result_snapshot = some response }

-- The links, up to the first that is refused, and whether all were made.
unfoldable pub link_events :
    BatchDrawn → IngestOneAuth → String → List String → JobStore → JobStore × Bool
unfolding upsert_job_event
link_events drawn auth job_id [] db = (db, true)
link_events drawn auth job_id (id ∷ ids) db =
    let rest =
      link_events drawn auth job_id ids
        (upsert_job_event drawn.db_now (pending_event auth job_id id) db) in
    if drawn.refuses (link_event id) then (db, false) else rest

-- An UPDATE of the job, and whether it was made.
abbrev pub job_updated :
    BatchDrawn
    → IngestOneAuth
    → String
    → JobStatement
    → (JobRow → JobRow)
    → JobStore
    → JobStore × Bool
job_updated drawn auth job_id statement change db =
    if drawn.refuses statement
    then (db, false)
    else (record db { jobs = update_where (is_batch_job auth job_id) change db.jobs }, true)

-- The statements on the job of a batch that was created, up to the first that throws, and whether none did. Each
-- commits on its own.
unfoldable pub settle_job :
    BatchDrawn
    → IngestOneAuth
    → Bool
    → String
    → List String
    → ResultSnapshot
    → JobStore
    → JobStore × Bool
unfolding link_events update_where
settle_job drawn auth compile job_id accepted response db =
    let prepared =
      if compile
      then link_events drawn auth job_id accepted db
      else job_updated drawn auth job_id complete_job (completed_row drawn.now) db in
    if prepared.1
    then job_updated drawn auth job_id store_snapshot (with_snapshot response) prepared.0
    else prepared

abbrev pub request_id_of : Option String → String
request_id_of none = ""
request_id_of (some id) = id

abbrev pub response_of : BatchDrawn → Option String → List BatchItemResult → ResultSnapshot
response_of drawn job_id rs =
    ResultSnapshot.batch
      (record { request_id = request_id_of drawn.request_id; batch_job_id = job_id; results = rs })

abbrev pub answered : ResultSnapshot → ProcessBatchResult
answered response = record {
  reply = record { response = response; duplicate = false };
  created = true;
}

abbrev pub replayed : ResultSnapshot → ProcessBatchResult
replayed response = record {
  reply = record { response = response; duplicate = true };
  created = false;
}

-- The check of a job under the key of the batch.
unfoldable pub resolve_batch : String → JobRow → Result BatchError ProcessBatchResult
resolve_batch batch_hash job = elim job.result_snapshot [
  | none ↦ err (conflict job.id)
  | some snapshot ↦
      if col_eq job.idempotency_request_hash batch_hash
      then ok (replayed snapshot)
      else err (conflict job.id)
]

module _ (sha256 : List ℕ → String) (utf8_length : List ℕ → ℕ) (atom_text : ℕ → Option (List ℕ))
    (read_date : List ℕ → ℕ) (message : String → String) (has_parents : EventInsertRequest → Bool)
    (before_insert before_requery : List StoredEvent → List StoredEvent)
    (names_constraint : Constraint → Bool) (before_job before_job_requery : JobStore → JobStore)
    (send : Option (Sent → List Sent → List Sent)) where
  -- The redaction of every item; none where canonical JSON refuses one.
  unfoldable pub process_items : List BatchItem → Option (List ProcessedItem)
  unfolding strip_private_tags canonical_json
  process_items [] = some []
  process_items (i ∷ is) = elim (canonical_json atom_text (strip_private_tags i.payload)) [
    | none ↦ none
    | some t ↦ elim (process_items is) [
      | none ↦ none
      | some pis ↦ some (
          record { source = i; redacted_payload = strip_private_tags i.payload; canonical = t }
          ∷ pis)
    ]
  ]

  abbrev pub occurrence : ℕ → Option (List ℕ) → ℕ × OccurredAtProvenance
  occurrence now none = (now, OccurredAtProvenance.server)
  occurrence now (some t) = (read_date t, OccurredAtProvenance.client)

  abbrev pub insert_request : String → IngestOneAuth → ℕ → ProcessedItem → EventInsertRequest
  insert_request key auth now pi = record {
    team_id = auth.team_id;
    project_id = auth.project_id;
    channel = "cli";
    kind = cli_init;
    connector_kind = "cli";
    source_event = none;
    source_action = none;
    delivery_id = key;
    item_key = pi.source.item_key;
    external_id = pi.source.external_id;
    url = pi.source.url;
    actor = pi.source.actor;
    actor_provenance = (elim pi.source.actor [ none ↦ unknown | some claim ↦ client_claimed ]);
    actor_principal_id = none;
    occurred_at = (occurrence now pi.source.occurred_at).0;
    occurred_at_provenance = (occurrence now pi.source.occurred_at).1;
    ingested_by_credential_id = some auth.credential_id;
    ingested_by_principal_id = auth.principal_id;
    payload = pi.redacted_payload;
    payload_hash = sha256 pi.canonical;
    payload_bytes = utf8_length pi.canonical;
    payload_schema_version = 1;
    envelope_version = 1;
  }

  -- The loop over the items, from the item `i` on.
  unfoldable pub insert_items :
      BatchDrawn → String → IngestOneAuth → ℕ → List ProcessedItem → List StoredEvent → Stored
  unfolding insert_event item_result accepted_ids
  insert_items drawn key auth i [] events = record {
    rows = events;
    item_results = [];
    accepted = [];
  }
  insert_items drawn key auth i (pi ∷ pis) events =
      let placed =
        insert_event has_parents before_insert before_requery (drawn.event_id i) drawn.db_now
          (insert_request key auth drawn.now pi) events in
      let rest = insert_items drawn key auth (suc i) pis placed.0 in
      record {
        rows = rest.rows;
        item_results = item_result message i placed.1 ∷ rest.item_results;
        accepted = accepted_ids placed.1 rest.accepted;
      }

  abbrev pub send_new : Sent → Bool → List Sent → List Sent
  send_new m is_sent sent = elim send [
    | none ↦ sent
    | some queue ↦ if is_sent then queue m sent else sent
  ]

  -- The `catch` of `createJob`.
  unfoldable pub after_conflict :
      BatchDrawn
      → String
      → IngestOneAuth
      → List BatchItemResult
      → String
      → JobStore
      → ProcessBatchResult
  unfolding find_job_by_idempotency_key
  after_conflict drawn key auth rs existing db =
      elim (find_job_by_idempotency_key db auth.team_id auth.project_id ingest_batch key) [
        | none ↦ answered (response_of drawn (some existing) rs)
        | some raced ↦ elim raced.result_snapshot [
          | none ↦ answered (response_of drawn (some existing) rs)
          | some snapshot ↦ replayed snapshot
        ]
      ]

  -- The fifth step, on what `createJob` did. Where a statement on the job throws, the id of the job is already there
  -- for the answer.
  unfoldable pub after_create :
      BatchDrawn
      → String
      → IngestOneAuth
      → Bool
      → Stored
      → List Sent
      → JobStore × Created
      → Processed
  unfolding settle_job after_conflict
  after_create drawn key auth compile stored sent (jobs, ok (job, created)) =
      let response =
        response_of drawn (if compile then some job.id else none) stored.item_results in
      let settled =
        if created
        then settle_job drawn auth compile job.id stored.accepted response jobs
        else (jobs, true) in
      if settled.1
      then (
        record {
          events = stored.rows;
          backend = record {
            job_store = settled.0;
            sent = send_new (batch_message drawn.message_id auth job.id) (compile && created) sent;
          };
        },
        ok (answered response),
      )
      else (
        record { events = stored.rows; backend = record { job_store = settled.0; sent = sent } },
        ok (answered (response_of drawn (some job.id) stored.item_results)),
      )
  after_create drawn key auth compile stored sent (jobs, err e) = (
    record { events = stored.rows; backend = record { job_store = jobs; sent = sent } },
    ok (elim e [
      | CreateError.idempotency_conflict existing ↦
          after_conflict drawn key auth stored.item_results existing jobs
      | other ↦ answered (response_of drawn none stored.item_results)
    ]),
  )

  -- The fourth and the fifth step.
  unfoldable pub store_batch :
      BatchDrawn
      → IngestBatchRequest
      → IngestOneAuth
      → List ProcessedItem
      → String
      → Storage
      → Processed
  unfolding insert_items create_job after_create
  store_batch drawn req auth pis batch_hash db =
      let stored = insert_items drawn req.idempotency_key auth 0 pis db.events in
      after_create drawn req.idempotency_key auth req.compile stored db.backend.sent (
        create_job names_constraint before_job before_job_requery drawn.job_id drawn.db_now
          (job_request auth req.idempotency_key batch_hash (length stored.accepted))
          db.backend.job_store)

  -- From the processed items and the canonical text of what is hashed on.
  unfoldable pub after_hash :
      BatchDrawn
      → IngestBatchRequest
      → IngestOneAuth
      → Option (List ProcessedItem × List ℕ)
      → Storage
      → Processed
  unfolding find_job_by_idempotency_key resolve_batch store_batch
  after_hash drawn req auth none db = (db, err unsupported_value)
  after_hash drawn req auth (some (pis, hashed)) db =
      elim (find_job_by_idempotency_key db.backend.job_store auth.team_id auth.project_id
        ingest_batch req.idempotency_key) [
          | some existing ↦ (db, resolve_batch (sha256 hashed) existing)
          | none ↦ store_batch drawn req auth pis (sha256 hashed) db
        ]

  unfoldable pub hashed_batch : Option (List ProcessedItem) → Option (List ProcessedItem × List ℕ)
  unfolding canonical_json
  hashed_batch none = none
  hashed_batch (some pis) = elim (canonical_json atom_text (array (hashed_items pis))) [
    | none ↦ none
    | some hashed ↦ some (pis, hashed)
  ]

  unfoldable pub process_ingest_batch :
      BatchDrawn → IngestBatchRequest → IngestOneAuth → Storage → Processed
  unfolding process_items hashed_batch after_hash
  process_ingest_batch drawn req auth db =
      after_hash drawn req auth (hashed_batch (process_items req.events)) db
