-- ===== src/Jobs/Enqueue/Ready.antt =====
-- About what an enqueued job has for the worker, queue/enqueue-compilation.ts.
use teamem_server.Prelude.{
  ℕ, ◌≡◌, ◌≢◌, ◌⊎◌, ◌∙◌, refl, sym, false, col_eq, str_eq_iff, true-ne-false, ap, subst, inl, inr,
  Bool, true, ◌&&◌, Option, none, some, String, List, [], ◌∷◌, ok, err-ne-ok, ok-injective,
  Result-cases, Option-cases, Bool-cases, arith, tests, str_eq, any, All,
}
use teamem_server.Table.{update_where}
use teamem_server.Jobs.Rows.{JobEventStatus, JobRow, JobEventRow, JobStore, event_status_eq}
use teamem_server.Jobs.Create.{Constraint, create_job}
use teamem_server.Jobs.Lifecycle.{same_event, overwritten, upsert_job_event}
use teamem_server.Jobs.RetryRoute.{Sent, Backend, message_for}
use teamem_server.Concepts.Contract.{codes}
use teamem_server.Jobs.Enqueue.Conflict.{
  Cause, SendError, error, no_error, includes, is_key_violation, is_id_conflict,
}
use teamem_server.Jobs.Enqueue.{
  EnqueueRequest, create_request, pending_request, upsert_events, send_message, enqueue_compilation,
}

any-update_where_mono {ℓ} :
    {A : Type ℓ} (p q : A → Bool) (f : A → A)
    → ((r : A) → q r ≡ true → q (f r) ≡ true)
    → (rs : List A) → any q rs ≡ true
    → any q (update_where p f rs) ≡ true
unfolding update_where
any-update_where_mono p q f h [] e = cc
any-update_where_mono p q f h (r ∷ rs) e = ground (arith, h r, any-update_where_mono p q f h rs)

any-update_where {ℓ} :
    {A : Type ℓ} (p q : A → Bool) (f : A → A)
    → ((r : A) → p r ≡ true → q (f r) ≡ true)
    → (rs : List A) → any p rs ≡ true
    → any q (update_where p f rs) ≡ true
unfolding update_where
any-update_where p q f h [] e = cc
any-update_where p q f h (r ∷ rs) e = ground (arith, h r, any-update_where p q f h rs)

abbrev is_pending_of : String → String → JobEventRow → Bool
is_pending_of job event e =
    same_event job event e && event_status_eq e.status JobEventStatus.pending

abbrev pub has_pending : JobStore → String → String → Bool
has_pending db job event = any (is_pending_of job event) db.job_events

-- A pending upsert keeps the pending rows.
upsert_job_event-has_pending :
    (now : ℕ) (req : EnqueueRequest) (job ev other : String) (db : JobStore)
    → has_pending db job other ≡ true
    → has_pending (upsert_job_event now (pending_request req job ev) db) job other ≡ true
unfolding upsert_job_event
upsert_job_event-has_pending now req job ev other db h =
    elim (Bool-cases (any (same_event job ev) db.job_events)) [
      | inl there ↦ rw there (
          any-update_where_mono (same_event job ev) (is_pending_of job other)
            (overwritten now (pending_request req job ev)) (λ r k. ground arith) db.job_events h)
      | inr missing ↦ rw missing (ground arith)
    ]

-- A pending upsert leaves a pending row.
upsert_job_event_pending :
    (now : ℕ) (req : EnqueueRequest) (job ev : String) (db : JobStore)
    → has_pending (upsert_job_event now (pending_request req job ev) db) job ev ≡ true
unfolding upsert_job_event
upsert_job_event_pending now req job ev db =
    elim (Bool-cases (any (same_event job ev) db.job_events)) [
      | inl there ↦ rw there (
          any-update_where (same_event job ev) (is_pending_of job ev)
            (overwritten now (pending_request req job ev)) (λ r k. ground arith) db.job_events
            there)
      | inr missing ↦ rw missing (grind tests)
    ]

upsert_events-has_pending :
    (now : ℕ) (req : EnqueueRequest) (job other : String) (evs : List String) (db : JobStore)
    → has_pending db job other ≡ true
    → has_pending (upsert_events now req job evs db) job other ≡ true
unfolding upsert_events
upsert_events-has_pending now req job other [] db h = h
upsert_events-has_pending now req job other (ev ∷ evs) db h =
    upsert_events-has_pending now req job other evs
      (upsert_job_event now (pending_request req job ev) db)
      (upsert_job_event-has_pending now req job ev other db h)

pub upsert_events_pending :
    (now : ℕ) (req : EnqueueRequest) (job : String) (evs : List String) (db : JobStore)
    → All (λ ev. has_pending (upsert_events now req job evs db) job ev ≡ true) evs
unfolding upsert_events
upsert_events_pending now req job [] db = tt
upsert_events_pending now req job (ev ∷ evs) db =
    let next = upsert_job_event now (pending_request req job ev) db in
    (
      upsert_events-has_pending now req job ev evs next
          (upsert_job_event_pending now req job ev db),
      upsert_events_pending now req job evs next,
    )

abbrev pub has_message : String → List Sent → Bool
has_message id sent = any (λ (s : Sent). str_eq s.message_id id) sent

-- An error that speaks of no duplicate key: neither does its message, nor has its cause the SQLSTATE of a violated
-- unique constraint.
abbrev pub IsOtherCause : Option Cause → Type 0
IsOtherCause none = Unit
IsOtherCause (some cause) = cause.code ≢ some "23505"

abbrev pub IsOtherError : SendError → Type 0
IsOtherError no_error = Unit
IsOtherError (error message cause) =
    (includes (codes "duplicate key") message ≡ false) × IsOtherCause cause

other_code : (code : Option String) → code ≢ some "23505" → col_eq code "23505" ≡ false
other_code none h = refl
other_code (some s) h = elim (Bool-cases (str_eq s "23505")) [
  | inl same ↦ absurd (h (ap some ((str_eq_iff s "23505").0 same)))
  | inr apart ↦ apart
]

other_cause : (cause : Option Cause) → IsOtherCause cause → is_key_violation cause ≡ false
other_cause none h = refl
other_cause (some cause) h = rw (other_code cause.code h) refl

-- Such an error is not taken for a message that is there.
is_id_conflict-other : (e : SendError) → IsOtherError e → is_id_conflict e ≡ false
unfolding is_id_conflict
is_id_conflict-other no_error h = refl
is_id_conflict-other (error message cause) h = rw (h.0, other_cause cause h.1) refl

module _ (send : Sent → List Sent → List Sent × Option SendError) where
  -- The queue of pg-boss, where the id of a message is its primary key. What it accepts is then in the queue; where it
  -- throws, there is a message with that id, or the error speaks of no duplicate key.
  pub record IsQueue : Type 0 where
    pub accepts :
        (m : Sent) (q : List Sent)
        → (send m q).1 ≡ none
        → has_message m.message_id (send m q).0 ≡ true
    pub refuses :
        (m : Sent) (q : List Sent) (e : SendError)
        → (send m q).1 ≡ some e
        → (has_message m.message_id (send m q).0 ≡ true) ⊎ IsOtherError e

  -- Each of the events is pending under the job, and there is a message under the job's id.
  abbrev pub IsReady : String → List String → Backend → Type 0
  IsReady job evs db =
      All (λ ev. has_pending db.job_store job ev ≡ true) evs × (has_message job db.sent ≡ true)

  send_message-IsReady :
      IsQueue
      → (job : JobRow) (made : Bool) (id : String) (created : Bool) (evs : List String)
        (db : Backend)
      → All (λ ev. has_pending db.job_store job.id ev ≡ true) evs
      → (send_message send is_id_conflict job made db).1 ≡ ok (id, created)
      → IsReady id evs (send_message send is_id_conflict job made db).0
  unfolding send_message
  send_message-IsReady queue job made id created evs db pends h =
      let m = message_for job.id job in
      let there : (thrown : SendError)
          → (send m db.sent).1 ≡ some thrown
          → is_id_conflict thrown ≡ true
          → has_message job.id (send m db.sent).0 ≡ true =
        (λ thrown failed conflict. elim (queue.refuses m db.sent thrown failed) [
          | inl kept ↦ kept
          | inr other ↦ absurd (true-ne-false (sym conflict ∙ is_id_conflict-other thrown other))
        ]) in
      elim (Option-cases (send m db.sent).1) [
        | inl accepted ↦
            let same : job.id ≡ id =
              ap (λ (p : String × Bool). p.0) (ok-injective (rw (accepted, send_message) at h)) in
            rw (accepted, send_message)
              (subst (λ i. IsReady i evs (record db { sent = (send m db.sent).0 })) same
                (pends, queue.accepts m db.sent accepted))
        | inr (thrown, failed) ↦ elim (Bool-cases (is_id_conflict thrown)) [
          | inr other ↦ absurd (err-ne-ok (rw (failed, other, send_message) at h))
          | inl conflict ↦
              let same : job.id ≡ id =
                ap (λ (p : String × Bool). p.0)
                  (ok-injective (rw (failed, conflict, send_message) at h)) in
              rw (failed, conflict, send_message)
                (subst (λ i. IsReady i evs (record db { sent = (send m db.sent).0 })) same
                  (pends, there thrown failed conflict))
        ]
      ]

  -- Whatever the tables held before and others commit inside of `createJob`, with nobody else at work after it, on a
  -- queue that keys its messages by their ids: if `enqueueCompilation` returns, with a new job or an old one, then every event of
  -- the request is pending under the job whose id it returns, and the queue has a message under that
  -- id.
  pub enqueue_compilation-IsReady :
      IsQueue
      → (names_constraint : Constraint → Bool) (before_insert before_requery : JobStore → JobStore)
        (new_id : String) (now : ℕ) (req : EnqueueRequest) (db : Backend) (id : String)
        (created : Bool)
      → (enqueue_compilation send is_id_conflict names_constraint before_insert before_requery
          new_id now req db).1
        ≡ ok (id, created)
      → IsReady id req.event_ids
          (enqueue_compilation send is_id_conflict names_constraint before_insert before_requery
            new_id now req db).0
  unfolding enqueue_compilation
  enqueue_compilation-IsReady queue names before_insert before_requery new_id now req db id created
        h =
      let result =
        create_job names before_insert before_requery new_id now (create_request req)
          db.job_store in
      elim (Result-cases result.1) [
        | inr (e, failed) ↦ absurd (err-ne-ok (rw (failed, enqueue_compilation) at h))
        | inl ((job, made), won) ↦
            rw (won, enqueue_compilation)
              (send_message-IsReady queue job made id created req.event_ids
                (record db { job_store = upsert_events now req job.id req.event_ids result.0 })
                (upsert_events_pending now req job.id req.event_ids result.0)
                (rw (won, enqueue_compilation) at h))
      ]
