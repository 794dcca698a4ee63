-- ===== src/Ingest/One.antt =====
-- `ingestOne`, ingest/ingest-one.ts, with the hash of security/payload-hash.ts. `sha256` is the digest of a text and
-- `utf8_length` its bytes in UTF-8; `atom_text` is what canonical JSON writes for a number or a Boolean. Others
-- commit only inside of `insertEvent` and `createJob`.
pub mod Again
mod Tests
use Prim.Native.String.{◌++◌}
use teamem_server.Prelude.{
  ℕ, Bool, true, false, Option, none, some, String, List, Result, ok, err, if◌then◌else◌,
}
use teamem_server.Concepts.Rows.{client_claimed, unknown}
use teamem_server.Compile.Events.{cli_init}
use teamem_server.Redact.{Json, strip_private_tags}
use teamem_server.Canonical.{canonical_json}
use teamem_server.Jobs.Rows.{
  ingest_event, credential, JobRow, JobStore, CreateJobRequest, JobEventStatus,
  UpsertJobEventRequest,
}
use teamem_server.Jobs.Create.{
  Constraint, CreateError, Created, create_job, find_job_by_idempotency_key,
}
use teamem_server.Jobs.Lifecycle.{upsert_job_event}
use teamem_server.Jobs.RetryRoute.{Sent, Backend}
use teamem_server.Ingest.Events.{
  EventInsertRequest, StoredEvent, InsertStatus, inserted, duplicate, InsertError, Inserted,
  OccurredAtProvenance, insert_event,
}

pub record IngestEventRequest : Type 0 where
  pub idempotency_key : String
  pub external_id : String
  pub url : Option String
  pub actor : Option Json
  pub occurred_at : Option ℕ
  pub payload : Json
  pub compile : Bool

pub record IngestOneAuth : Type 0 where
  pub team_id : String
  pub project_id : String
  pub credential_id : String
  pub principal_id : Option String

pub record IngestOneResult : Type 0 where
  pub event_id : String
  pub status : InsertStatus
  pub job_id : Option String

pub data IngestError : Type 0 where
  unsupported_value : IngestError
  insert_failed : InsertError → IngestError
  job_failed : CreateError → IngestError

pub record Storage : Type 0 where
  pub events : List StoredEvent
  pub backend : Backend

abbrev pub Ingested : Type 0
Ingested = Storage × Result IngestError IngestOneResult

-- What the code draws from outside during a call: its clock and the database's, and new ids.
pub record Drawn : Type 0 where
  pub now : ℕ
  pub db_now : ℕ
  pub event_id : String
  pub job_id : String
  pub message_id : String

abbrev pub channel : String
channel = "cli"

abbrev pub compile_key : String → String
compile_key event_id = "compile:" ++ event_id

abbrev pub occurrence : ℕ → Option ℕ → ℕ × OccurredAtProvenance
occurrence now none = (now, OccurredAtProvenance.server)
occurrence now (some t) = (t, OccurredAtProvenance.client)

-- The event of a request, with the hash and the size of its redacted payload.
abbrev pub insert_request :
    IngestEventRequest → IngestOneAuth → ℕ → Json → String → ℕ → EventInsertRequest
insert_request req auth now payload hash bytes = record {
  team_id = auth.team_id;
  project_id = auth.project_id;
  channel = channel;
  kind = cli_init;
  connector_kind = "cli";
  source_event = none;
  source_action = none;
  delivery_id = req.idempotency_key;
  item_key = "root";
  external_id = req.external_id;
  url = req.url;
  actor = req.actor;
  actor_provenance = (elim req.actor [ none ↦ unknown | some claim ↦ client_claimed ]);
  actor_principal_id = none;
  occurred_at = (occurrence now req.occurred_at).0;
  occurred_at_provenance = (occurrence now req.occurred_at).1;
  ingested_by_credential_id = some auth.credential_id;
  ingested_by_principal_id = auth.principal_id;
  payload = payload;
  payload_hash = hash;
  payload_bytes = bytes;
  payload_schema_version = 1;
  envelope_version = 1;
}

abbrev pub job_request : IngestOneAuth → String → String → CreateJobRequest
job_request auth hash event_id = record {
  team_id = auth.team_id;
  project_id = auth.project_id;
  kind = ingest_event;
  initiated_by_kind = credential;
  initiated_by_credential_id = some auth.credential_id;
  initiated_by_principal_id = auth.principal_id;
  initiated_by_connector = none;
  idempotency_key = some (compile_key event_id);
  idempotency_request_hash = some hash;
  result_snapshot = none;
  event_count = 1;
}

abbrev pub pending_event : IngestOneAuth → String → String → UpsertJobEventRequest
pending_event auth job_id event_id = record {
  team_id = auth.team_id;
  project_id = auth.project_id;
  job_id = job_id;
  event_id = event_id;
  status = JobEventStatus.pending;
  reason = none;
  error = none;
  concept_uuids = none;
}

abbrev pub compile_message : String → IngestOneAuth → String → Sent
compile_message message_id auth job_id = record {
  message_id = message_id;
  job_id = job_id;
  team_id = auth.team_id;
  project_id = auth.project_id;
  kind = ingest_event;
}

-- `existingJob?.id ?? null`
abbrev pub id_of : Option JobRow → Option String
id_of none = none
id_of (some job) = some job.id

unfoldable pub original_job : IngestOneAuth → String → Storage → Option String
unfolding find_job_by_idempotency_key
original_job auth event_id db = id_of (
    find_job_by_idempotency_key db.backend.job_store auth.team_id auth.project_id ingest_event
      (compile_key event_id))

module _ (sha256 : List ℕ → String) (utf8_length : List ℕ → ℕ) (atom_text : ℕ → Option (List ℕ))
    (has_parents : EventInsertRequest → Bool)
    (before_insert before_requery : List StoredEvent → List StoredEvent)
    (names_constraint : Constraint → Bool) (before_job before_job_requery : JobStore → JobStore)
    (send : Option (Sent → List Sent → List Sent)) where
  -- A queue that refuses a message is logged, and that is all.
  abbrev pub send_new : Sent → Bool → List Sent → List Sent
  send_new message created sent = elim send [
    | none ↦ sent
    | some queue ↦ if created then queue message sent else sent
  ]

  -- Step 5 on what `createJob` did.
  unfoldable pub after_create :
      Drawn → IngestOneAuth → String → Storage → JobStore × Created → Ingested
  unfolding upsert_job_event
  after_create drawn auth event_id db (job_store, ok (job, created)) = (
    record db {
      backend = record {
        job_store = upsert_job_event drawn.db_now (pending_event auth job.id event_id) job_store;
        sent = send_new (compile_message drawn.message_id auth job.id) created db.backend.sent;
      };
    },
    ok (record { event_id = event_id; status = inserted; job_id = some job.id }),
  )
  after_create drawn auth event_id db (job_store, err e) = (
    record db { backend = record { job_store = job_store; sent = db.backend.sent } },
    (elim e [
      | CreateError.idempotency_conflict existing ↦
          ok (record { event_id = event_id; status = inserted; job_id = some existing })
      | other ↦ err (job_failed other)
    ]),
  )

  -- Step 5, of a request that asks for a compilation.
  unfoldable pub compile_event : Drawn → IngestOneAuth → String → String → Storage → Ingested
  unfolding create_job after_create
  compile_event drawn auth hash event_id db = after_create drawn auth event_id db (
      create_job names_constraint before_job before_job_requery drawn.job_id drawn.db_now
        (job_request auth hash event_id) db.backend.job_store)

  -- Steps 4 and 5.
  unfoldable pub after_insert :
      Drawn → IngestOneAuth → Bool → String → String → InsertStatus → Storage → Ingested
  unfolding compile_event original_job
  after_insert drawn auth compile hash event_id duplicate db = (
    db,
    ok (record { event_id = event_id; status = duplicate; job_id = original_job auth event_id db }),
  )
  after_insert drawn auth compile hash event_id inserted db =
      if compile
      then compile_event drawn auth hash event_id db
      else (db, ok (record { event_id = event_id; status = inserted; job_id = none }))

  -- What follows on what `insertEvent` did.
  unfoldable pub after_event : Drawn → IngestOneAuth → Bool → String → Storage → Inserted → Ingested
  unfolding after_insert
  after_event drawn auth compile hash db (events, err e) =
      (record db { events = events }, err (insert_failed e))
  after_event drawn auth compile hash db (events, ok r) =
      after_insert drawn auth compile hash r.event_id r.status (record db { events = events })

  -- From the redacted payload and its canonical text on.
  unfoldable pub store :
      Drawn → IngestEventRequest → IngestOneAuth → Json → Option (List ℕ) → Storage → Ingested
  unfolding insert_event after_event
  store drawn req auth payload none db = (db, err unsupported_value)
  store drawn req auth payload (some text) db =
      after_event drawn auth req.compile (sha256 text) db (
        insert_event has_parents before_insert before_requery drawn.event_id drawn.db_now
          (insert_request req auth drawn.now payload (sha256 text) (utf8_length text)) db.events)

  unfoldable pub ingest_one : Drawn → IngestEventRequest → IngestOneAuth → Storage → Ingested
  unfolding store strip_private_tags canonical_json
  ingest_one drawn req auth db =
      let payload = strip_private_tags req.payload in
      store drawn req auth payload (canonical_json atom_text payload) db
