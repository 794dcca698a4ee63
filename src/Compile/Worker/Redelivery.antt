-- ===== src/Compile/Worker/Redelivery.antt =====
-- About repeated deliveries, and outcomes that were there before one.
use teamem_server.Prelude.{
  ◌≡◌, ◌≢◌, ◌⊎◌, refl, sym, ap, subst, ◌∙◌, inl, inr, true, false, Option, none, some, String, List,
  [], ◌∷◌, map, ok, Option-cases, Bool-cases, arith, All, All-intro, str_eq_iff, first,
}
use teamem_server.Table.{filter, filter-update_still_none, first-filter_holds}
use teamem_server.Jobs.Rows.{JobEventRow, JobRow, JobStore, in_scope}
use teamem_server.Jobs.Lifecycle.{
  is_claimable, updated_row, claim_job, update_job_status, same_event, event_of_job,
  upsert_job_event, get_job_events,
}
use teamem_server.Jobs.Lifecycle.Claim.{
  NotClaimable, claim_job-none, claim_job-NotClaimable, updated_row-not_claimable,
}
use teamem_server.Concepts.Contract.{is_given}
use teamem_server.Compile.Events.{EventRow, event_in_scope, get_events_by_ids}
use teamem_server.Compile.Services.{claim_it, set_status, set_outcome, HandlerDeps, Services}
use teamem_server.Compile.Run.{Database, JobRef, set_job_status, record_outcome, placed}
use teamem_server.Compile.Run.Keeps.{KeptByStatus, KeptByOutcome, KeptByPage}
use teamem_server.Compile.Run.Outcomes.{upsert-apart}
use teamem_server.Compile.Worker.{
  Message, is_well_formed, job_of, is_pending, pending_events, claimed_database, deliver_job,
  deliver,
}
use teamem_server.Compile.Worker.Keeps.{claimed-keeps}

abbrev pub IsTaken : JobRef → Database → Type 0
IsTaken job db = NotClaimable job.team_id job.project_id job.job_id db.job_store

module _ (w : Services) (deps : HandlerDeps) (job : JobRef) where
  abbrev AnyEvent : EventRow → Type 0
  AnyEvent e = Unit

  IsTaken-by_status : KeptByStatus w job (IsTaken job) AnyEvent
  unfolding set_job_status update_job_status
  IsTaken-by_status s er n db h = elim (Option-cases (w.outage (set_status s))) [
    | inl up ↦
        rw (up, set_job_status)
          (filter-update_still_none (in_scope job.team_id job.project_id job.job_id)
            (updated_row w.now s er n) (is_claimable job.team_id job.project_id job.job_id)
            (λ r p k.
              updated_row-not_claimable job.team_id job.project_id job.job_id w.now s er n r k)
            db.job_store.jobs h)
    | inr (t, down) ↦ rw (down, set_job_status) h
  ]

  IsTaken-by_outcome : KeptByOutcome w job (IsTaken job) AnyEvent
  unfolding record_outcome upsert_job_event
  IsTaken-by_outcome e s reason er uuids db q done h =
      elim (Option-cases (w.outage (set_outcome e.id s))) [
        | inl up ↦ rw (up, record_outcome) h
        | inr (t, down) ↦ rw (down, record_outcome) h
      ]

  IsTaken-by_page : KeptByPage w job (IsTaken job) AnyEvent
  unfolding placed
  IsTaken-by_page clients e db h = h

  deliver_job-taken :
      (db : Database)
      → IsTaken job db
      → ((deliver_job w deps job db).0 ≡ db)
        × (w.outage claim_it ≡ none → (deliver_job w deps job db).1 ≡ ok tt)
  unfolding deliver_job claimed_database
  deliver_job-taken db h =
      let nothing = claim_job-none job.team_id job.project_id job.job_id w.now db.job_store h in
      let lost = ap (λ (p : JobStore × Option JobRow). p.1) nothing in
      let same = ap (λ (p : JobStore × Option JobRow). p.0) nothing in
      elim (Option-cases (w.outage claim_it)) [
        | inl up ↦ (
          rw (up, deliver_job, lost) (ap (λ (s : JobStore). record db { job_store = s }) same),
          λ k. rw (up, deliver_job, lost) refl,
        )
        | inr (t, down) ↦ (rw (down, deliver_job) refl, λ k. absurd (ground (arith, down, k)))
      ]

  deliver_job-IsTaken :
      (db : Database) → w.outage claim_it ≡ none → IsTaken job (deliver_job w deps job db).0
  unfolding deliver_job claimed_database
  deliver_job-IsTaken db up =
      let claimed =
        claim_job-NotClaimable job.team_id job.project_id job.job_id w.now db.job_store in
      elim (Option-cases (claim_job w.now job.team_id job.project_id job.job_id db.job_store).1) [
        | inl lost ↦ rw (up, deliver_job, lost, deliver_job) claimed
        | inr (row, won) ↦
            rw (up, deliver_job, won, deliver_job)
              (claimed-keeps w deps job (IsTaken job) AnyEvent IsTaken-by_outcome IsTaken-by_page
                IsTaken-by_status (claimed_database w deps job db) (All-intro AnyEvent (λ e. tt) _)
                claimed)
      ]

  -- The outcomes of an event that the run does not compile.
  module _ (other_job ev : String) (rows : List JobEventRow) where
    abbrev Untouched : Database → Type 0
    Untouched db = filter (same_event other_job ev) db.job_store.job_events ≡ rows

    abbrev Elsewhere : EventRow → Type 0
    Elsewhere e = job.job_id ≡ other_job → e.id ≢ ev

    Untouched-by_status : KeptByStatus w job Untouched Elsewhere
    unfolding set_job_status update_job_status
    Untouched-by_status s er n db h = elim (Option-cases (w.outage (set_status s))) [
      | inl up ↦ rw (up, set_job_status) h
      | inr (t, down) ↦ rw (down, set_job_status) h
    ]

    Untouched-by_outcome : KeptByOutcome w job Untouched Elsewhere
    unfolding record_outcome
    Untouched-by_outcome e s reason er uuids db q done h =
        elim (Option-cases (w.outage (set_outcome e.id s))) [
          | inl up ↦ rw (up, record_outcome) (upsert-apart other_job ev w.now _ db.job_store q ∙ h)
          | inr (t, down) ↦ rw (down, record_outcome) h
        ]

    Untouched-by_page : KeptByPage w job Untouched Elsewhere
    unfolding placed
    Untouched-by_page clients e db h = h

    deliver_job-Untouched :
        (db : Database)
        → All Elsewhere (
            get_events_by_ids db.events job.team_id job.project_id
              (pending_events w deps job (claimed_database w deps job db)))
        → Untouched db
        → Untouched (deliver_job w deps job db).0
    unfolding deliver_job claimed_database claim_job
    deliver_job-Untouched db q h = elim (Option-cases (w.outage claim_it)) [
      | inr (t, down) ↦ rw (down, deliver_job) h
      | inl up ↦
          elim (Option-cases
            (claim_job w.now job.team_id job.project_id job.job_id db.job_store).1) [
              | inl lost ↦ rw (up, deliver_job, lost, deliver_job) h
              | inr (row, won) ↦
                  rw (up, deliver_job, won, deliver_job)
                    (claimed-keeps w deps job Untouched Elsewhere Untouched-by_outcome
                      Untouched-by_page Untouched-by_status (claimed_database w deps job db) q h)
            ]
    ]

-- What the loaded events have in common with their ids.
loaded_ids :
    (events : List EventRow) (team proj : String) (P : String → Type 0) (ids : List String)
    → All P ids
    → All (λ (e : EventRow). P e.id) (get_events_by_ids events team proj ids)
unfolding get_events_by_ids
loaded_ids events team proj P [] h = tt
loaded_ids events team proj P (id ∷ ids) h =
    elim (Option-cases (first (filter (event_in_scope team proj id) events))) [
      | inl missing ↦ rw (missing, get_events_by_ids) (loaded_ids events team proj P ids h.1)
      | inr (e, found) ↦
          let hit = first-filter_holds (event_in_scope team proj id) events e found in
          let same : e.id ≡ id = ground (arith, hit, str_eq_iff e.id id) in
          rw (found, get_events_by_ids)
            (subst P (sym same) h.0, loaded_ids events team proj P ids h.1)
    ]

-- The event has no pending row in the job.
abbrev pub IsSettledEvent : JobRef → String → Database → Type 0
IsSettledEvent job ev db =
    All (λ r. same_event job.job_id ev r ≡ true → is_pending r ≡ false) db.job_store.job_events

pending_others :
    (job : JobRef) (ev : String) (rows : List JobEventRow)
    → All (λ r. same_event job.job_id ev r ≡ true → is_pending r ≡ false) rows
    → All
        (λ id. id ≢ ev)
        (map
          (λ (e : JobEventRow). e.event_id)
          (filter is_pending (filter (event_of_job job.team_id job.project_id job.job_id) rows)))
unfolding filter
pending_others job ev [] h = tt
pending_others job ev (r ∷ rows) h =
    elim (Bool-cases (event_of_job job.team_id job.project_id job.job_id r)) [
      | inr miss ↦ rw miss (pending_others job ev rows h.1)
      | inl hit ↦ elim (Bool-cases (is_pending r)) [
        | inr settled ↦ rw (hit, settled) (pending_others job ev rows h.1)
        | inl open_yet ↦
            rw (hit, open_yet)
              (
                (λ same. absurd (ground (arith, h.0, hit, open_yet, str_eq_iff r.event_id ev))),
                pending_others job ev rows h.1,
              )
      ]
    ]

All-under {ℓ} :
    {A : Type ℓ} {B : Type 0} (P : A → Type 0) (xs : List A)
    → (B → All P xs)
    → All (λ x. B → P x) xs
All-under P [] h = tt
All-under P (x ∷ xs) h = ((λ b. (h b).0), All-under P xs (λ b. (h b).1))

-- A message lacks a member that is not there or empty.
abbrev pub IsMissing : Option String → Type 0
IsMissing member = (member ≡ none) ⊎ (member ≡ some "")

abbrev pub IsMalformed : Message → Type 0
IsMalformed msg = IsMissing msg.job_id ⊎ (IsMissing msg.team_id ⊎ IsMissing msg.project_id)

is_given-missing : (member : Option String) → IsMissing member → is_given member ≡ false
is_given-missing member (inl absent) = rw absent refl
is_given-missing member (inr empty) = rw empty refl

malformed-refused : (msg : Message) → IsMalformed msg → is_well_formed msg ≡ false
malformed-refused msg (inl m) = ground (arith, is_given-missing msg.job_id m)
malformed-refused msg (inr (inl m)) = ground (arith, is_given-missing msg.team_id m)
malformed-refused msg (inr (inr m)) = ground (arith, is_given-missing msg.project_id m)

-- A message that lacks its job, team or project, whatever the tables hold, and a message whose job is not in the queue,
-- where the database takes the claim, change nothing and do not throw.
pub deliver-taken :
    (w : Services) (deps : HandlerDeps) (msg : Message) (db : Database)
    → IsMalformed msg ⊎ (IsTaken (job_of msg) db × (w.outage claim_it ≡ none))
    → deliver w deps msg db ≡ (db, ok tt)
unfolding deliver
deliver-taken w deps msg db (inl lacking) = rw (malformed-refused msg lacking, deliver) refl
deliver-taken w deps msg db (inr (h, up)) = elim (Bool-cases (is_well_formed msg)) [
  | inl well ↦
      let (kept, returned) = deliver_job-taken w deps (job_of msg) db h in
      rw (well, deliver) (λ i. (kept i, returned up i))
  | inr malformed ↦ rw (malformed, deliver) refl
]

-- After a delivery whose claim the database took, a second delivery of the message changes nothing
-- and does not throw where its claim is taken: not even when the first one threw, so that the queue
-- delivers the message again.
pub deliver-twice :
    (w later : Services) (deps : HandlerDeps) (msg : Message) (db : Database)
    → w.outage claim_it ≡ none
    → later.outage claim_it ≡ none
    → deliver later deps msg (deliver w deps msg db).0 ≡ ((deliver w deps msg db).0, ok tt)
unfolding deliver
deliver-twice w later deps msg db up up_later = elim (Bool-cases (is_well_formed msg)) [
  | inr malformed ↦
      let ignored : deliver w deps msg db ≡ (db, ok tt) = rw (malformed, deliver) refl in
      rw ignored (rw (malformed, deliver) refl)
  | inl well ↦
      let first : deliver w deps msg db ≡ deliver_job w deps (job_of msg) db =
        rw (well, deliver) refl in
      let (kept, returned) =
        deliver_job-taken later deps (job_of msg) (deliver_job w deps (job_of msg) db).0
          (deliver_job-IsTaken w deps (job_of msg) db up) in
      rw first (rw (well, deliver) (λ i. (kept i, returned up_later i)))
]

-- A delivery leaves the rows of each outcome alone that is another job's, or that is no longer
-- pending in the message's own job when the message arrives.
pub deliver-untouched :
    (w : Services) (deps : HandlerDeps) (msg : Message) (db : Database) (other_job ev : String)
    → ((job_of msg).job_id ≡ other_job → IsSettledEvent (job_of msg) ev db)
    → filter (same_event other_job ev) (deliver w deps msg db).0.job_store.job_events
      ≡ filter (same_event other_job ev) db.job_store.job_events
unfolding deliver
deliver-untouched w deps msg db other_job ev settled = elim (Bool-cases (is_well_formed msg)) [
  | inr malformed ↦ rw (malformed, deliver) refl
  | inl well ↦
      rw (well, deliver)
        (deliver_job-Untouched w deps (job_of msg) other_job ev
          (filter (same_event other_job ev) db.job_store.job_events) db
          (loaded_ids db.events (job_of msg).team_id (job_of msg).project_id
            (λ id. (job_of msg).job_id ≡ other_job → id ≢ ev)
            (pending_events w deps (job_of msg) (claimed_database w deps (job_of msg) db))
            (unfold pending_events get_job_events claimed_database claim_job in
              All-under (λ id. id ≢ ev)
                (map (λ (e : JobEventRow). e.event_id)
                  (filter is_pending (
                    filter
                      (event_of_job (job_of msg).team_id (job_of msg).project_id
                        (job_of msg).job_id)
                      db.job_store.job_events)))
                (λ same. pending_others (job_of msg) ev db.job_store.job_events (settled same))))
          refl)
]
