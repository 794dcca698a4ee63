-- ===== src/Ingest/Events/Found.antt =====
-- About `insertEvent` of db/repositories/events.ts: the event that it returns is found under its identity.
use teamem_server.Prelude.{
  ℕ, ◌≡◌, refl, sym, ap, ◌∙◌, inl, inr, Bool, true, some, String, List, ◌∷◌, ok, str_eq, any,
  Bool-cases, Option-cases, Result-cases, err-ne-ok, ok-injective, str_eq_self,
}
use teamem_server.Table.{filter}
use teamem_server.Ingest.Events.{
  EventInsertRequest, StoredEvent, inserted, duplicate, EventInsertResult, EventConstraint,
  events_pkey, events_idempotency_uq, foreign_key, same_entry, find_by_identity, resolve_replay,
  new_event, insert_row, resolve_race, insert_new, insert_event,
}

-- The row that a result speaks of, found under the identity of the request and with its hash.
abbrev pub IsFound : EventInsertRequest → String → List StoredEvent → Type 0
IsFound req event_id events =
    (e : StoredEvent) × ((find_by_identity events req ≡ some e)
      × ((e.id ≡ event_id) × (str_eq e.values.payload_hash req.payload_hash ≡ true)))

replay-IsFound :
    (req : EventInsertRequest) (events : List StoredEvent) (existing : StoredEvent)
    (r : EventInsertResult)
    → find_by_identity events req ≡ some existing
    → resolve_replay existing req.payload_hash ≡ ok r
    → IsFound req r.event_id events
unfolding resolve_replay
replay-IsFound req events existing r found h =
    elim (Bool-cases (str_eq existing.values.payload_hash req.payload_hash)) [
      | inl same ↦
          let answer : r ≡ record { event_id = existing.id; status = duplicate } =
            sym (ok-injective (sym (rw (same, resolve_replay) refl) ∙ h)) in
          (existing, (found, (sym (ap (λ (x : EventInsertResult). x.event_id) answer), same)))
      | inr other ↦ absurd (err-ne-ok (rw (other, resolve_replay) at h))
    ]

new-IsFound :
    (id : String) (now : ℕ) (req : EventInsertRequest) (events : List StoredEvent)
    → find_by_identity (new_event id now req ∷ events) req ≡ some (new_event id now req)
unfolding find_by_identity filter
new-IsFound id now req events =
    rw
      (
        str_eq_self req.team_id,
        str_eq_self req.project_id,
        str_eq_self req.channel,
        str_eq_self req.connector_kind,
        str_eq_self req.delivery_id,
        str_eq_self req.item_key,
      )
      refl

module _ (has_parents : EventInsertRequest → Bool)
    (before_insert before_requery : List StoredEvent → List StoredEvent) where
  race-IsFound :
      (violated : EventConstraint) (req : EventInsertRequest) (events : List StoredEvent)
      (r : EventInsertResult)
      → (resolve_race has_parents before_insert before_requery violated req events).1 ≡ ok r
      → IsFound req r.event_id
          (resolve_race has_parents before_insert before_requery violated req events).0
  unfolding resolve_race
  race-IsFound events_pkey req events r h = absurd (err-ne-ok h)
  race-IsFound foreign_key req events r h = absurd (err-ne-ok h)
  race-IsFound events_idempotency_uq req events r h =
      elim (Option-cases (find_by_identity (before_requery events) req)) [
        | inl missing ↦ absurd (err-ne-ok (rw (missing, resolve_race) at h))
        | inr (raced, found) ↦
            rw (found, resolve_race)
              (replay-IsFound req (before_requery events) raced r found
                (rw (found, resolve_race) at h))
      ]

  insert_row-rows :
      (id : String) (now : ℕ) (req : EventInsertRequest) (events rows : List StoredEvent)
      → insert_row has_parents before_insert before_requery (new_event id now req) events ≡ ok rows
      → rows ≡ new_event id now req ∷ events
  unfolding insert_row
  insert_row-rows id now req events rows h =
      elim (Bool-cases (any (λ (e : StoredEvent). str_eq e.id id) events)) [
        | inl taken ↦ absurd (err-ne-ok (rw taken at h))
        | inr fresh ↦ elim (Bool-cases (any (same_entry req) events)) [
          | inl present ↦ absurd (err-ne-ok (rw (fresh, present) at h))
          | inr absent ↦ elim (Bool-cases (has_parents req)) [
            | inl parents ↦ sym (ok-injective (rw (fresh, absent, parents) at h))
            | inr orphan ↦ absurd (err-ne-ok (rw (fresh, absent, orphan) at h))
          ]
        ]
      ]

  insert_new-IsFound :
      (id : String) (now : ℕ) (req : EventInsertRequest) (events : List StoredEvent)
      (r : EventInsertResult)
      → (insert_new has_parents before_insert before_requery id now req events).1 ≡ ok r
      → IsFound req r.event_id
          (insert_new has_parents before_insert before_requery id now req events).0
  unfolding insert_new
  insert_new-IsFound id now req events r h =
      elim (Result-cases
        (insert_row has_parents before_insert before_requery (new_event id now req) events)) [
          | inl (rows, stored) ↦
              let answer : record { event_id = id; status = inserted } ≡ r =
                ok-injective (sym (rw (stored, insert_new) refl) ∙ h) in
              rw (stored, insert_new)
                (
                  new_event id now req,
                  (
                    ap (λ es. find_by_identity es req)
                          (insert_row-rows id now req events rows stored)
                        ∙ new-IsFound id now req events,
                    (
                      ap (λ (x : EventInsertResult). x.event_id) answer,
                      str_eq_self req.payload_hash,
                    ),
                  ),
                )
          | inr (violated, e) ↦
              rw (e, insert_new) (race-IsFound violated req events r (rw (e, insert_new) at h))
        ]

  -- An event that `insertEvent` returns is found under its identity, whatever others commit meanwhile.
  pub insert_event-IsFound :
      (id : String) (now : ℕ) (req : EventInsertRequest) (events : List StoredEvent)
      (r : EventInsertResult)
      → (insert_event has_parents before_insert before_requery id now req events).1 ≡ ok r
      → IsFound req r.event_id
          (insert_event has_parents before_insert before_requery id now req events).0
  unfolding insert_event
  insert_event-IsFound id now req events r h = elim (Option-cases (find_by_identity events req)) [
    | inr (existing, found) ↦
        rw (found, insert_event)
          (replay-IsFound req events existing r found (rw (found, insert_event) at h))
    | inl missing ↦
        rw (missing, insert_event)
          (insert_new-IsFound id now req (before_insert events) r (rw (missing, insert_event) at h))
  ]
