-- ===== src/Ingest/One/Again.antt =====
-- A request of ingest/ingest-one.ts that is sent again.
use Prim.Native.String.{count}
use text.Mathlib.TextLemmas.{length-append}
use teamem_server.Prelude.{
  ℕ, ◌≡◌, refl, sym, ap, subst, ◌∙◌, ◌⊎◌, inl, inr, Bool, true, false, ◌&&◌, Option, some, String,
  List, ok, err, Bool-cases, Option-cases, err-ne-ok, ok-injective, first, str_eq, str_eq_iff,
  arith,
}
use teamem_server.Table.{filter}
use teamem_server.Redact.{Json, strip_private_tags}
use teamem_server.Canonical.{canonical_json}
use teamem_server.Canonical.Order.{Same, canonical_json-Same}
use teamem_server.Jobs.Rows.{JobRow, JobStore, ingest_event}
use teamem_server.Jobs.Create.{
  Constraint, CreateError, Created, truthy, create_job, find_job_by_idempotency_key,
}
use teamem_server.Jobs.Create.Replay.{find-create_job}
use teamem_server.Jobs.Create.Conflict.{create_job-IsNamed}
use teamem_server.Jobs.Lifecycle.{upsert_job_event}
use teamem_server.Jobs.RetryRoute.{Sent}
use teamem_server.Ingest.Events.{
  EventInsertRequest, StoredEvent, Inserted, InsertStatus, inserted, duplicate, EventInsertResult,
  insert_event, find_by_identity, resolve_replay,
}
use teamem_server.Ingest.Events.Found.{IsFound, insert_event-IsFound}
use teamem_server.Ingest.One.{
  IngestEventRequest, IngestOneAuth, IngestOneResult, Storage, Drawn, Ingested, compile_key,
  insert_request, job_request, id_of, original_job, after_create, compile_event, after_insert,
  after_event, store, ingest_one,
}

truthy-compile_key :
    (event_id : String) → truthy (some (compile_key event_id)) ≡ some (compile_key event_id)
unfolding truthy
truthy-compile_key event_id =
    let keyed : str_eq (compile_key event_id) "" ≡ false =
      not_empty (Bool-cases (str_eq (compile_key event_id) "")) in
    rw keyed refl
  where
    not_empty :
        (str_eq (compile_key event_id) "" ≡ true) ⊎ (str_eq (compile_key event_id) "" ≡ false)
        → str_eq (compile_key event_id) "" ≡ false
    not_empty (inr other) = other
    not_empty (inl same) =
        let none_left : count (compile_key event_id) ≡ 0 =
          ap count ((str_eq_iff (compile_key event_id) "").0 same) in
        absurd (omega (arith, none_left, length-append "compile:" event_id))

-- Requests with one key look under one identity.
find_same_key :
    (req again : IngestEventRequest) (auth : IngestOneAuth) (now later bytes more : ℕ) (v w : Json)
    (hash other : String) (events : List StoredEvent)
    → again.idempotency_key ≡ req.idempotency_key
    → find_by_identity events (insert_request again auth later w other more)
      ≡ find_by_identity events (insert_request req auth now v hash bytes)
unfolding find_by_identity
find_same_key req again auth now later bytes more v w hash other events h =
    ap
      (λ key. first (
        filter
          (λ (e : StoredEvent).
            str_eq e.values.team_id auth.team_id
            && (str_eq e.values.project_id auth.project_id
                && (str_eq e.values.channel "cli"
                    && (str_eq e.values.connector_kind "cli"
                        && (str_eq e.values.delivery_id key && str_eq e.values.item_key "root")))))
          events))
      h

insert_event_known :
    (has_parents : EventInsertRequest → Bool)
    (before_insert before_requery : List StoredEvent → List StoredEvent) (id : String) (now : ℕ)
    (req : EventInsertRequest) (events : List StoredEvent) (e : StoredEvent)
    → find_by_identity events req ≡ some e
    → str_eq e.values.payload_hash req.payload_hash ≡ true
    → insert_event has_parents before_insert before_requery id now req events
      ≡ (events, ok (record { event_id = e.id; status = duplicate }))
unfolding insert_event
insert_event_known has_parents before_insert before_requery id now req events e found same =
    rw (found, insert_event) (ap (λ r. (events, r)) (rw (same, resolve_replay) refl))

module _ (sha256 : List ℕ → String) (utf8_length : List ℕ → ℕ) (atom_text : ℕ → Option (List ℕ))
    (has_parents : EventInsertRequest → Bool)
    (before_insert before_requery : List StoredEvent → List StoredEvent)
    (names_constraint : Constraint → Bool) (before_job before_job_requery : JobStore → JobStore)
    (send : Option (Sent → List Sent → List Sent)) where
  -- The job of an answer is the one that the event's key finds.
  abbrev HasItsJob : IngestOneAuth → Storage → IngestOneResult → Type 0
  HasItsJob auth db r = original_job auth r.event_id db ≡ r.job_id

  abbrev continued : Drawn → IngestOneAuth → String → Storage → JobStore × Created → Ingested
  continued =
      after_create sha256 utf8_length atom_text has_parents before_insert before_requery
        names_constraint before_job before_job_requery send

  abbrev ingest : Drawn → IngestEventRequest → IngestOneAuth → Storage → Ingested
  ingest =
      ingest_one sha256 utf8_length atom_text has_parents before_insert before_requery
        names_constraint before_job before_job_requery send

  -- A store that keeps the events, and an answer for the event with the job that its key finds.
  abbrev IsDone : IngestOneAuth → String → Storage → Ingested → IngestOneResult → Type 0
  IsDone auth event_id db answer r =
      (answer.0.events ≡ db.events) × ((r.event_id ≡ event_id) × HasItsJob auth answer.0 r)

  after_create-IsDone :
      (drawn : Drawn) (auth : IngestOneAuth) (event_id : String) (db : Storage)
      (created : JobStore × Created) (r : IngestOneResult)
      → ((job : JobRow) (is_new : Bool)
          → created.1 ≡ ok (job, is_new)
          → find_job_by_idempotency_key created.0 auth.team_id auth.project_id ingest_event
              (compile_key event_id)
            ≡ some job)
      → ((existing : String)
          → created.1 ≡ err (CreateError.idempotency_conflict existing)
          → (job : JobRow) × ((find_job_by_idempotency_key created.0 auth.team_id auth.project_id
                  ingest_event
                  (compile_key event_id)
                ≡ some job)
              × (job.id ≡ existing)))
      → (continued drawn auth event_id db created).1 ≡ ok r
      → IsDone auth event_id db (continued drawn auth event_id db created) r
  unfolding after_create original_job find_job_by_idempotency_key upsert_job_event
  after_create-IsDone drawn auth event_id db (job_store, ok (job, is_new)) r found named h =
      let answer : record { event_id = event_id; status = inserted; job_id = some job.id } ≡ r =
        ok-injective h in
      subst
        (IsDone auth event_id db (continued drawn auth event_id db (job_store, ok (job, is_new))))
        answer (refl, (refl, ap id_of (found job is_new refl)))
  after_create-IsDone drawn auth event_id db
        (job_store, err (CreateError.idempotency_conflict existing)) r found named h =
      let answer : record { event_id = event_id; status = inserted; job_id = some existing } ≡ r =
        ok-injective h in
      let (job, (there, same)) = named existing refl in
      subst
        (IsDone auth event_id db (
          continued drawn auth event_id db
            (job_store, err (CreateError.idempotency_conflict existing))))
        answer (refl, (refl, ap id_of there ∙ ap some same))
  after_create-IsDone drawn auth event_id db (job_store, err (CreateError.event_count_too_small n))
        r found named h =
      absurd (err-ne-ok h)
  after_create-IsDone drawn auth event_id db (job_store, err CreateError.existing_not_found) r found
        named h =
      absurd (err-ne-ok h)
  after_create-IsDone drawn auth event_id db (job_store, err (CreateError.db_error c)) r found named
        h =
      absurd (err-ne-ok h)

  abbrev ended : Drawn → IngestOneAuth → String → String → InsertStatus → Storage → Ingested
  ended drawn auth hash event_id status db =
      after_insert sha256 utf8_length atom_text has_parents before_insert before_requery
        names_constraint before_job before_job_requery send drawn auth true hash event_id status db

  after_insert-IsDone :
      (drawn : Drawn) (auth : IngestOneAuth) (hash event_id : String) (status : InsertStatus)
      (db : Storage) (r : IngestOneResult)
      → (ended drawn auth hash event_id status db).1 ≡ ok r
      → IsDone auth event_id db (ended drawn auth hash event_id status db) r
  unfolding after_insert compile_event
  after_insert-IsDone drawn auth hash event_id duplicate db r h =
      let answer : record {
        event_id = event_id;
        status = duplicate;
        job_id = original_job auth event_id db;
      }
          ≡ r =
        ok-injective h in
      subst (IsDone auth event_id db (ended drawn auth hash event_id duplicate db)) answer
        (refl, (refl, refl))
  after_insert-IsDone drawn auth hash event_id inserted db r h =
      after_create-IsDone drawn auth event_id db
        (create_job names_constraint before_job before_job_requery drawn.job_id drawn.db_now
          (job_request auth hash event_id) db.backend.job_store)
        r
        (λ job is_new made.
          find-create_job names_constraint before_job before_job_requery drawn.job_id drawn.db_now
            (job_request auth hash event_id) (compile_key event_id) db.backend.job_store job is_new
            (truthy-compile_key event_id) made)
        (λ existing refused.
          create_job-IsNamed names_constraint before_job before_job_requery drawn.job_id
            drawn.db_now (job_request auth hash event_id) (compile_key event_id)
            db.backend.job_store existing (truthy-compile_key event_id) refused)
        h

  abbrev went_on : Drawn → IngestOneAuth → String → Storage → Inserted → Ingested
  went_on drawn auth hash db placed =
      after_event sha256 utf8_length atom_text has_parents before_insert before_requery
        names_constraint before_job before_job_requery send drawn auth true hash db placed

  after_event-IsDone :
      (drawn : Drawn) (auth : IngestOneAuth) (hash : String) (db : Storage) (placed : Inserted)
      (r : IngestOneResult)
      → (went_on drawn auth hash db placed).1 ≡ ok r
      → (e : EventInsertResult) × ((placed.1 ≡ ok e)
          × IsDone auth e.event_id
              (record db { events = placed.0 })
              (went_on drawn auth hash db placed)
              r)
  unfolding after_event
  after_event-IsDone drawn auth hash db (events, err e) r h = absurd (err-ne-ok h)
  after_event-IsDone drawn auth hash db (events, ok e) r h = (
    e,
    (
      refl,
      after_insert-IsDone drawn auth hash e.event_id e.status (record db { events = events }) r h,
    ),
  )

  -- A request whose event is known: a duplicate, and no change.
  ingest_known :
      (drawn : Drawn) (again : IngestEventRequest) (auth : IngestOneAuth) (db : Storage)
      (text : List ℕ) (e : StoredEvent)
      → canonical_json atom_text (strip_private_tags again.payload) ≡ some text
      → find_by_identity db.events (
          insert_request again auth drawn.now
            (strip_private_tags again.payload)
            (sha256 text)
            (utf8_length text))
        ≡ some e
      → str_eq e.values.payload_hash (sha256 text) ≡ true
      → ingest drawn again auth db ≡ (
        db,
        ok (record { event_id = e.id; status = duplicate; job_id = original_job auth e.id db }),
      )
  unfolding ingest_one store after_event after_insert
  ingest_known drawn again auth db text e canonical found same =
      ap (λ t. stored drawn again t db) canonical
      ∙ ap
          (after_event sha256 utf8_length atom_text has_parents before_insert before_requery
            names_constraint before_job before_job_requery send drawn auth again.compile
            (sha256 text) db)
          (insert_event_known has_parents before_insert before_requery drawn.event_id drawn.db_now
            (insert_request again auth drawn.now (strip_private_tags again.payload) (sha256 text)
              (utf8_length text))
            db.events e found same)
    where
      stored : Drawn → IngestEventRequest → Option (List ℕ) → Storage → Ingested
      stored drawn again t db =
          store sha256 utf8_length atom_text has_parents before_insert before_requery
            names_constraint before_job before_job_requery send drawn again auth
            (strip_private_tags again.payload) t db

  abbrev first_insert : Drawn → IngestEventRequest → IngestOneAuth → List ℕ → EventInsertRequest
  first_insert drawn req auth text =
      insert_request req auth drawn.now (strip_private_tags req.payload) (sha256 text)
        (utf8_length text)

  -- After a request that was answered, its event is found, with the hash of the payload's canonical text.
  ingest-IsFound :
      (drawn : Drawn) (req : IngestEventRequest) (auth : IngestOneAuth) (db : Storage)
      (r : IngestOneResult)
      → req.compile ≡ true
      → (ingest drawn req auth db).1 ≡ ok r
      → (text : List ℕ) × ((canonical_json atom_text (strip_private_tags req.payload) ≡ some text)
          × (IsFound
                (first_insert drawn req auth text)
                r.event_id
                (ingest drawn req auth db).0.events
              × HasItsJob auth (ingest drawn req auth db).0 r))
  unfolding ingest_one store
  ingest-IsFound drawn req auth db r compiles h =
      elim (Option-cases (canonical_json atom_text (strip_private_tags req.payload))) [
        | inl refused ↦ absurd (err-ne-ok (rw (refused, ingest_one, store) at h))
        | inr (text, canonical) ↦
            let run : ingest drawn req auth db ≡ placed text =
              rw (canonical, compiles, ingest_one, store) refl in
            let (e, (made, (kept, (same, job)))) =
              after_event-IsDone drawn auth (sha256 text) db (row text) r
                (ap (λ (a : Ingested). a.1) (sym run) ∙ h) in
            (
              text,
              (
                canonical,
                subst (Settled text) (sym run) (
                  subst (λ es. IsFound (first_insert drawn req auth text) r.event_id es) (sym kept)
                      (subst (λ i. IsFound (first_insert drawn req auth text) i (row text).0)
                        (sym same)
                        (insert_event-IsFound has_parents before_insert before_requery
                          drawn.event_id drawn.db_now (first_insert drawn req auth text) db.events e
                          made)),
                  job,
                ),
              ),
            )
      ]
    where
      row : List ℕ → Inserted
      row text =
          insert_event has_parents before_insert before_requery drawn.event_id drawn.db_now
            (first_insert drawn req auth text) db.events

      placed : List ℕ → Ingested
      placed text = went_on drawn auth (sha256 text) db (row text)

      Settled : List ℕ → Ingested → Type 0
      Settled text a =
          IsFound (first_insert drawn req auth text) r.event_id a.0.events × HasItsJob auth a.0 r

  -- Whatever others commit during the first call: if a request that asks for a compilation was answered, then the same
  -- key with a payload that redaction makes the same, but for the order of keys, gets the event and the job of the first
  -- answer as a duplicate, and changes nothing, whatever else of the request differs, with nothing in between.
  pub ingest_one-ingest_one :
      (drawn later : Drawn) (req again : IngestEventRequest) (auth : IngestOneAuth) (db : Storage)
      (r : IngestOneResult)
      → req.compile ≡ true
      → (ingest drawn req auth db).1 ≡ ok r
      → again.idempotency_key ≡ req.idempotency_key
      → Same (strip_private_tags again.payload) (strip_private_tags req.payload)
      → ingest later again auth (ingest drawn req auth db).0 ≡ (
        (ingest drawn req auth db).0,
        ok (record { event_id = r.event_id; status = duplicate; job_id = r.job_id }),
      )
  ingest_one-ingest_one drawn later req again auth db r compiles h key same =
      let (text, (canonical, ((e, (found, (id, hash))), job))) =
        ingest-IsFound drawn req auth db r compiles h in
      let after = (ingest drawn req auth db).0 in
      ingest_known later again auth after text e
        (canonical_json-Same atom_text (strip_private_tags again.payload)
            (strip_private_tags req.payload) same
          ∙ canonical)
        (find_same_key req again auth drawn.now later.now (utf8_length text) (utf8_length text)
            (strip_private_tags req.payload) (strip_private_tags again.payload) (sha256 text)
            (sha256 text) after.events key
          ∙ found)
        hash
      ∙ ap
          (λ i. (
            after,
            ok (record { event_id = i; status = duplicate; job_id = original_job auth i after }),
          ))
          id
      ∙ ap (λ j. (after, ok (record { event_id = r.event_id; status = duplicate; job_id = j }))) job
