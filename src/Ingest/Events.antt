-- ===== src/Ingest/Events.antt =====
-- The table `events` (db/schema.ts) and `insertEvent` of db/repositories/events.ts. Two arguments stand for
-- what other callers commit between the statements of one call.
pub mod Refines
pub mod Found
mod Tests
use teamem_server.Prelude.{
  ℕ, Bool, true, false, ◌&&◌, Option, none, some, String, List, ◌∷◌, Result, ok, err, str_eq, first,
  any, if◌then◌else◌,
}
use teamem_server.Table.{filter}
use teamem_server.Concepts.Rows.{Provenance}
use teamem_server.Compile.Events.{SourceKind}
use teamem_server.Redact.{Json}

pub data OccurredAtProvenance : Type 0 where
  provider client server : OccurredAtProvenance

pub record EventInsertRequest : Type 0 where
  pub team_id : String
  pub project_id : String
  pub channel : String
  pub kind : SourceKind
  pub connector_kind : String
  pub source_event : Option String
  pub source_action : Option String
  pub delivery_id : String
  pub item_key : String
  pub external_id : String
  pub url : Option String
  pub actor : Option Json
  pub actor_provenance : Provenance
  pub actor_principal_id : Option String
  pub occurred_at : ℕ
  pub occurred_at_provenance : OccurredAtProvenance
  pub ingested_by_credential_id : Option String
  pub ingested_by_principal_id : Option String
  pub payload : Json
  pub payload_hash : String
  pub payload_bytes : ℕ
  pub payload_schema_version : ℕ
  pub envelope_version : ℕ

-- A row: what was asked for, under an id and the time of the insert.
pub record StoredEvent : Type 0 where
  pub id : String
  pub created_at : ℕ
  pub values : EventInsertRequest

pub data InsertStatus : Type 0 where
  inserted duplicate : InsertStatus

pub record EventInsertResult : Type 0 where
  pub event_id : String
  pub status : InsertStatus

-- The constraints of the table that an INSERT may violate.
pub data EventConstraint : Type 0 where
  events_pkey events_idempotency_uq foreign_key : EventConstraint

pub data InsertError : Type 0 where
  idempotency_conflict : String → InsertError
  db_error : EventConstraint → InsertError

-- The index `events_idempotency_uq`.
abbrev pub same_entry : EventInsertRequest → StoredEvent → Bool
same_entry req e =
    str_eq e.values.project_id req.project_id
    && (str_eq e.values.channel req.channel
        && (str_eq e.values.connector_kind req.connector_kind
            && (str_eq e.values.delivery_id req.delivery_id
                && str_eq e.values.item_key req.item_key)))

unfoldable pub find_by_identity : List StoredEvent → EventInsertRequest → Option StoredEvent
unfolding filter
find_by_identity events req =
    first (filter (λ e. str_eq e.values.team_id req.team_id && same_entry req e) events)

unfoldable pub resolve_replay : StoredEvent → String → Result InsertError EventInsertResult
resolve_replay existing incoming_hash =
    if str_eq existing.values.payload_hash incoming_hash
    then ok (record { event_id = existing.id; status = duplicate })
    else err (idempotency_conflict existing.id)

abbrev pub new_event : String → ℕ → EventInsertRequest → StoredEvent
new_event id now req = record { id = id; created_at = now; values = req }

abbrev pub Inserted : Type 0
Inserted = List StoredEvent × Result InsertError EventInsertResult

-- `has_parents`: whether the rows exist that the foreign keys of a request name.
module _ (has_parents : EventInsertRequest → Bool)
    (before_insert before_requery : List StoredEvent → List StoredEvent) where
  unfoldable pub insert_row :
      StoredEvent → List StoredEvent → Result EventConstraint (List StoredEvent)
  insert_row row events =
      if any (λ (e : StoredEvent). str_eq e.id row.id) events
      then err events_pkey
      else if any (same_entry row.values) events
      then err events_idempotency_uq
      else if has_parents row.values
      then ok (row ∷ events)
      else err foreign_key

  -- The `catch`, on the violated constraint.
  unfoldable pub resolve_race : EventConstraint → EventInsertRequest → List StoredEvent → Inserted
  unfolding find_by_identity resolve_replay
  resolve_race events_pkey req events = (events, err (db_error events_pkey))
  resolve_race foreign_key req events = (events, err (db_error foreign_key))
  resolve_race events_idempotency_uq req events =
      elim (find_by_identity (before_requery events) req) [
        | none ↦ (before_requery events, err (db_error events_idempotency_uq))
        | some raced ↦ (before_requery events, resolve_replay raced req.payload_hash)
      ]

  unfoldable pub insert_new : String → ℕ → EventInsertRequest → List StoredEvent → Inserted
  unfolding insert_row resolve_race
  insert_new id now req events = elim (insert_row (new_event id now req) events) [
    | ok events' ↦ (events', ok (record { event_id = id; status = inserted }))
    | err violated ↦ resolve_race violated req events
  ]

  unfoldable pub insert_event : String → ℕ → EventInsertRequest → List StoredEvent → Inserted
  unfolding find_by_identity resolve_replay insert_new
  insert_event id now req events = elim (find_by_identity events req) [
    | some existing ↦ (events, resolve_replay existing req.payload_hash)
    | none ↦ insert_new id now req (before_insert events)
  ]
