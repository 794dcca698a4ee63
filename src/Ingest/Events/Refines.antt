-- ===== src/Ingest/Events/Refines.antt =====
-- What `insertEvent` of db/repositories/events.ts promises, and that it keeps this among other callers.
use teamem_server.Prelude.{
  ℕ, ◌≡◌, refl, sym, ap, ◌∙◌, ◌⊎◌, inl, inr, Bool, true, false, ◌&&◌, Option, none, some, String,
  List, [], ◌∷◌, Result, ok, err, str_eq, first, any, if◌then◌else◌, All, Bool-cases, true-ne-false,
  some-ne-none, Option-cases, arith,
}
use teamem_server.Table.{filter}
use teamem_server.Ingest.Events.{
  EventInsertRequest, StoredEvent, inserted, duplicate, EventInsertResult, InsertError,
  idempotency_conflict, db_error, events_idempotency_uq, same_entry, find_by_identity,
  resolve_replay, new_event, Inserted, insert_row, resolve_race, insert_new, insert_event,
}

-- The abstract view of the table: which event stands under an identity, and its hash.
pub record Identity : Type 0 where
  pub project_id : String
  pub channel : String
  pub connector_kind : String
  pub delivery_id : String
  pub item_key : String

abbrev pub identity_of : EventInsertRequest → Identity
identity_of req = record {
  project_id = req.project_id;
  channel = req.channel;
  connector_kind = req.connector_kind;
  delivery_id = req.delivery_id;
  item_key = req.item_key;
}

abbrev pub identity_eq : Identity → Identity → Bool
identity_eq a b =
    str_eq a.project_id b.project_id
    && (str_eq a.channel b.channel
        && (str_eq a.connector_kind b.connector_kind
            && (str_eq a.delivery_id b.delivery_id && str_eq a.item_key b.item_key)))

abbrev pub View : Type 0
View = Identity → Option (String × String)

abbrev pub seen_as : Option StoredEvent → Option (String × String)
seen_as none = none
seen_as (some e) = some (e.id, e.values.payload_hash)

unfoldable pub view : List StoredEvent → View
unfolding filter
view events i = seen_as (first (filter (λ e. identity_eq (identity_of e.values) i) events))

-- The specification: the first event under an identity stays, and later ones with the same hash get its id.
unfoldable pub put_if_absent :
    Identity → String → String → View → View × Result InsertError EventInsertResult
put_if_absent i id hash v = elim (v i) [
  | none ↦ (
    (λ j. if identity_eq i j then some (id, hash) else v j),
    ok (record { event_id = id; status = inserted }),
  )
  | some (id', hash') ↦ (
    v,
    (if str_eq hash' hash
        then ok (record { event_id = id'; status = duplicate })
        else err (idempotency_conflict id')),
  )
]

-- A project belongs to the team of the request.
abbrev pub IsOfTeam : EventInsertRequest → StoredEvent → Type 0
IsOfTeam req e =
    str_eq e.values.project_id req.project_id ≡ true → str_eq e.values.team_id req.team_id ≡ true

no_and : (a : Bool) → (a && false) ≡ false
no_and true = refl
no_and false = refl

find_without_team :
    (req : EventInsertRequest) (events : List StoredEvent)
    → All (IsOfTeam req) events
    → filter (λ e. str_eq e.values.team_id req.team_id && same_entry req e) events
      ≡ filter (same_entry req) events
unfolding filter
find_without_team req [] teams = refl
find_without_team req (e ∷ events) teams =
    let same : (str_eq e.values.team_id req.team_id && same_entry req e) ≡ same_entry req e =
      in_team teams.0 in
    rw same (ground (arith, find_without_team req events teams.1))
  where
    in_team :
        IsOfTeam req e
        → (str_eq e.values.team_id req.team_id && same_entry req e) ≡ same_entry req e
    in_team h = elim (Bool-cases (str_eq e.values.project_id req.project_id)) [
      | inl own ↦ rw (h own) refl
      | inr other ↦ rw other (no_and (str_eq e.values.team_id req.team_id))
    ]

view-find_by_identity :
    (req : EventInsertRequest) (events : List StoredEvent)
    → All (IsOfTeam req) events
    → view events (identity_of req) ≡ seen_as (find_by_identity events req)
unfolding view find_by_identity
view-find_by_identity req events teams =
    ap (λ es. seen_as (first es)) (sym (find_without_team req events teams))

view-next :
    (id : String) (now : ℕ) (req : EventInsertRequest) (events : List StoredEvent) (j : Identity)
    → view (new_event id now req ∷ events) j
      ≡ (if identity_eq (identity_of req) j then some (id, req.payload_hash) else view events j)
unfolding view filter
view-next id now req events j = elim (Bool-cases (identity_eq (identity_of req) j)) [
  | inl here ↦ rw here refl
  | inr away ↦ rw away refl
]

view_absent :
    (req : EventInsertRequest) (events : List StoredEvent)
    → any (same_entry req) events ≡ false
    → view events (identity_of req) ≡ none
unfolding view filter
view_absent req [] h = refl
view_absent req (e ∷ events) h = elim (Bool-cases (same_entry req e)) [
  | inl here ↦ absurd (true-ne-false (sym (rw here refl) ∙ h))
  | inr away ↦ rw away (view_absent req events (sym (rw away refl) ∙ h))
]

view_present :
    (req : EventInsertRequest) (events : List StoredEvent)
    → any (same_entry req) events ≡ true
    → view events (identity_of req) ≡ none
    → ⊥
unfolding view filter
view_present req [] h k = true-ne-false (sym h)
view_present req (e ∷ events) h k = elim (Bool-cases (same_entry req e)) [
  | inl here ↦
      let present : view (e ∷ events) (identity_of req) ≡ some (e.id, e.values.payload_hash) =
        rw here refl in
      some-ne-none (sym present ∙ k)
  | inr away ↦ view_present req events (sym (rw away refl) ∙ h) (sym (rw away refl) ∙ k)
]

module _ (has_parents : EventInsertRequest → Bool)
    (before_insert before_requery : List StoredEvent → List StoredEvent) (id : String) (now : ℕ)
    (req : EventInsertRequest) where
  -- What the call does is what the specification does at once, on one state that the table has during the call.
  abbrev pub TakesEffectAt : List StoredEvent → Inserted → Type 0
  TakesEffectAt events answer =
      (view answer.0 ≡ (put_if_absent (identity_of req) id req.payload_hash (view events)).0)
      × (answer.1 ≡ (put_if_absent (identity_of req) id req.payload_hash (view events)).1)

  found-TakesEffectAt :
      (events : List StoredEvent) (existing : StoredEvent)
      → All (IsOfTeam req) events
      → find_by_identity events req ≡ some existing
      → TakesEffectAt events (events, resolve_replay existing req.payload_hash)
  unfolding put_if_absent resolve_replay
  found-TakesEffectAt events existing teams found =
      let seen : view events (identity_of req) ≡ some (existing.id, existing.values.payload_hash) =
        (view-find_by_identity req events teams ∙ ap seen_as found) in
      (rw (seen, put_if_absent) refl, rw (seen, put_if_absent) refl)

  added-TakesEffectAt :
      (events : List StoredEvent)
      → any (same_entry req) events ≡ false
      → TakesEffectAt events
          (new_event id now req ∷ events, ok (record { event_id = id; status = inserted }))
  unfolding put_if_absent
  added-TakesEffectAt events absent =
      let unseen : view events (identity_of req) ≡ none = view_absent req events absent in
      let added : (j : Identity)
          → view (new_event id now req ∷ events) j
            ≡ (put_if_absent (identity_of req) id req.payload_hash (view events)).0 j =
        (λ j. rw (unseen, put_if_absent) (view-next id now req events j)) in
      ((λ k. λ j. added j k), rw (unseen, put_if_absent) refl)

  -- The race: the row that was in the way is found.
  lost-TakesEffectAt :
      (events : List StoredEvent)
      → All (IsOfTeam req) events
      → any (same_entry req) events ≡ true
      → TakesEffectAt events (elim (find_by_identity events req) [
        | none ↦ (events, err (db_error events_idempotency_uq))
        | some raced ↦ (events, resolve_replay raced req.payload_hash)
      ])
  lost-TakesEffectAt events teams present = elim (Option-cases (find_by_identity events req)) [
    | inl missing ↦ absurd (
        view_present req events present
          (view-find_by_identity req events teams ∙ ap seen_as missing))
    | inr (raced, found) ↦ rw found (found-TakesEffectAt events raced teams found)
  ]

  insert_new-TakesEffectAt :
      (events : List StoredEvent)
      → has_parents req ≡ true
      → any (λ (e : StoredEvent). str_eq e.id id) events ≡ false
      → All (IsOfTeam req) (before_requery events)
      → (any (same_entry req) events ≡ true → any (same_entry req) (before_requery events) ≡ true)
      → TakesEffectAt events (insert_new has_parents before_insert before_requery id now req events)
        ⊎ TakesEffectAt
            (before_requery events)
            (insert_new has_parents before_insert before_requery id now req events)
  unfolding insert_new insert_row resolve_race
  insert_new-TakesEffectAt events parents fresh teams stays =
      elim (Bool-cases (any (same_entry req) events)) [
        | inl taken ↦ inr (
            rw (fresh, taken, insert_new, insert_row, resolve_race)
              (lost-TakesEffectAt (before_requery events) teams (stays taken)))
        | inr free ↦
            inl
              (rw (fresh, free, parents, insert_new, insert_row) (added-TakesEffectAt events free))
      ]

  -- The states that the table has when the call reads or writes it.
  abbrev IsDuring : List StoredEvent → List StoredEvent → Type 0
  IsDuring events s =
      (s ≡ events) ⊎ ((s ≡ before_insert events) ⊎ (s ≡ before_requery (before_insert events)))

  -- Whatever other callers commit meanwhile, `insertEvent` does at once, on one of the states that the table has when it
  -- reads or writes, what the specification says: the first event under an identity stays, a later one with the same
  -- hash is a duplicate of it, and one with another hash is refused with the id of the first. This holds where the
  -- project belongs to the request's team, the rows exist that it names, its id is new and no other caller takes the
  -- identity's row away while the call looks again.
  pub insert_event-TakesEffectAt :
      (events : List StoredEvent)
      → has_parents req ≡ true
      → any (λ (e : StoredEvent). str_eq e.id id) (before_insert events) ≡ false
      → All (IsOfTeam req) events
      → All (IsOfTeam req) (before_requery (before_insert events))
      → (any (same_entry req) (before_insert events) ≡ true
          → any (same_entry req) (before_requery (before_insert events)) ≡ true)
      → (s : List StoredEvent) × (IsDuring events s
          × TakesEffectAt s
              (insert_event has_parents before_insert before_requery id now req events))
  unfolding insert_event
  insert_event-TakesEffectAt events parents fresh teams later_teams stays =
      elim (Option-cases (find_by_identity events req)) [
        | inr (existing, found) ↦ (
          events,
          (inl refl, rw (found, insert_event) (found-TakesEffectAt events existing teams found)),
        )
        | inl missing ↦
            rw (missing, insert_event)
              (elim (insert_new-TakesEffectAt (before_insert events) parents fresh later_teams
                stays) [
                  | inl now_done ↦ (before_insert events, (inr (inl refl), now_done))
                  | inr then_done ↦
                      (before_requery (before_insert events), (inr (inr refl), then_done))
                ])
      ]
