-- ===== src/Ingest/Events/Tests.antt =====
-- Runs of `insertEvent`, db/repositories/events.ts.
use teamem_server.Prelude.{◌≡◌, refl, ◌⊎◌, Bool, true, none, List, [], ◌∷◌, ok}
use teamem_server.Concepts.Rows.{unknown}
use teamem_server.Compile.Events.{cli_init}
use teamem_server.Redact.{atom}
use teamem_server.Ingest.Events.{
  EventInsertRequest, StoredEvent, duplicate, OccurredAtProvenance, insert_event, insert_new,
  insert_row, resolve_race, find_by_identity, resolve_replay, new_event,
}
use teamem_server.Ingest.Events.Refines.{TakesEffectAt, insert_event-TakesEffectAt}

abbrev request : EventInsertRequest
request = record {
  team_id = "t1";
  project_id = "p1";
  channel = "cli";
  kind = cli_init;
  connector_kind = "cli";
  source_event = none;
  source_action = none;
  delivery_id = "key_0001";
  item_key = "root";
  external_id = "org/repo";
  url = none;
  actor = none;
  actor_provenance = unknown;
  actor_principal_id = none;
  occurred_at = 10;
  occurred_at_provenance = OccurredAtProvenance.server;
  ingested_by_credential_id = none;
  ingested_by_principal_id = none;
  payload = atom 1;
  payload_hash = "h1";
  payload_bytes = 1;
  payload_schema_version = 1;
  envelope_version = 1;
}

abbrev all_there : EventInsertRequest → Bool
all_there req = true

-- Another caller stores the same event between the SELECT and the INSERT.
abbrev other_caller : List StoredEvent → List StoredEvent
other_caller events = new_event "evt_2" 11 request ∷ events

abbrev nobody : List StoredEvent → List StoredEvent
nobody events = events

lost_race_test :
    insert_event all_there other_caller nobody "evt_1" 12 request []
    ≡ (other_caller [], ok (record { event_id = "evt_2"; status = duplicate }))
unfolding insert_event insert_new insert_row resolve_race find_by_identity resolve_replay
lost_race_test = refl

insert_event-TakesEffectAt_example :
    (s : List StoredEvent) × (((s ≡ []) ⊎ ((s ≡ other_caller []) ⊎ (s ≡ other_caller [])))
      × TakesEffectAt all_there other_caller nobody "evt_1" 12 request s
          (insert_event all_there other_caller nobody "evt_1" 12 request []))
insert_event-TakesEffectAt_example =
    insert_event-TakesEffectAt all_there other_caller nobody "evt_1" 12 request [] refl refl tt
      ((λ h. refl), tt) (λ h. h)
