-- ===== src/Ingest/One/Tests.antt =====
-- Runs of ingest/ingest-one.ts.
use teamem_server.Prelude.{
  ℕ, ◌+◌, ◌≡◌, ◌≢◌, refl, Bool, true, ltb, Option, none, some, String, List, [], ◌∷◌, ok, err,
  arith, length, if◌then◌else◌,
}
use teamem_server.Concepts.Contract.{codes}
use teamem_server.Redact.{Json, text, object, no_fields, field, strip_private_tags}
use teamem_server.Canonical.Order.{in_object, swap}
use teamem_server.Jobs.Rows.{JobStore}
use teamem_server.Jobs.Create.{Constraint}
use teamem_server.Jobs.RetryRoute.{Sent}
use teamem_server.Ingest.Events.{
  EventInsertRequest, StoredEvent, inserted, duplicate, idempotency_conflict,
}
use teamem_server.Ingest.One.{
  IngestEventRequest, IngestOneAuth, Storage, Drawn, Ingested, ingest_one, insert_failed,
}
use teamem_server.Ingest.One.Again.{ingest_one-ingest_one}

abbrev digit_text : ℕ → Option (List ℕ)
digit_text n = some ((48 + n) ∷ [])

abbrev digest : List ℕ → String
digest t = if ltb (length t) 50 then "short" else "long"

abbrev bytes_of : List ℕ → ℕ
bytes_of t = length t

abbrev all_there : EventInsertRequest → Bool
all_there req = true

abbrev nobody : List StoredEvent → List StoredEvent
nobody events = events

abbrev any_name : Constraint → Bool
any_name c = true

abbrev no_job : JobStore → JobStore
no_job db = db

abbrev put : Sent → List Sent → List Sent
put m sent = m ∷ sent

abbrev run : Drawn → IngestEventRequest → IngestOneAuth → Storage → Ingested
run =
    ingest_one digest bytes_of digit_text all_there nobody nobody any_name no_job no_job (some put)

abbrev auth : IngestOneAuth
auth = record { team_id = "t1"; project_id = "p1"; credential_id = "c1"; principal_id = none }

abbrev empty : Storage
empty = record {
  events = [];
  backend = record { job_store = record { jobs = []; job_events = [] }; sent = [] };
}

abbrev first_draw : Drawn
first_draw = record {
  now = 10;
  db_now = 11;
  event_id = "evt_1";
  job_id = "job_1";
  message_id = "m1";
}

abbrev second_draw : Drawn
second_draw = record {
  now = 20;
  db_now = 21;
  event_id = "evt_2";
  job_id = "job_2";
  message_id = "m2";
}

abbrev snapshot : Json
snapshot = object (
    field (codes "path") (text (codes "a.ts"))
      (field (codes "content") (text (codes "x<private>1</private>")) no_fields))

-- The same with another private section, and its keys in the other order.
abbrev resent : Json
resent = object (
    field (codes "content") (text (codes "x<private>22</private>"))
      (field (codes "path") (text (codes "a.ts")) no_fields))

abbrev request_of : Json → IngestEventRequest
request_of payload = record {
  idempotency_key = "key_0001";
  external_id = "org/repo";
  url = none;
  actor = none;
  occurred_at = none;
  payload = payload;
  compile = true;
}

answered_test :
    (run first_draw (request_of snapshot) auth empty).1
    ≡ ok (record { event_id = "evt_1"; status = inserted; job_id = some "job_1" })
unfolding ingest_one
answered_test = refl

content_not_path : codes "content" ≢ codes "path"
content_not_path h = ground arith

ingest_one-ingest_one_example :
    run second_draw (request_of resent) auth (run first_draw (request_of snapshot) auth empty).0 ≡ (
      (run first_draw (request_of snapshot) auth empty).0,
      ok (record { event_id = "evt_1"; status = duplicate; job_id = some "job_1" }),
    )
unfolding strip_private_tags
ingest_one-ingest_one_example =
    ingest_one-ingest_one digest bytes_of digit_text all_there nobody nobody any_name no_job no_job
      (some put) first_draw second_draw (request_of snapshot) (request_of resent) auth empty
      (record { event_id = "evt_1"; status = inserted; job_id = some "job_1" }) refl answered_test
      refl
      (in_object (
        swap (codes "content") (codes "path") (text (codes "x")) (text (codes "a.ts")) no_fields
          content_not_path))

-- Another payload under the key of a stored event is a conflict.
conflict_test :
    (run second_draw
      (request_of (
        object (
          field
            (codes "content")
            (text (codes "a text of its own, which is a longer one"))
            no_fields)))
      auth
      (run first_draw (request_of snapshot) auth empty).0).1
    ≡ err (insert_failed (idempotency_conflict "evt_1"))
unfolding ingest_one
conflict_test = refl
