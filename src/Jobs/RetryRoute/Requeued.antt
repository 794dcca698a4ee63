-- ===== src/Jobs/RetryRoute/Requeued.antt =====
-- About the retry route of http/routes/job-retry.ts, its message and the worker's claim.
use teamem_server.Prelude.{
  ℕ, ◌≤◌, ◌≡◌, refl, sym, ap, ◌∙◌, subst, inl, inr, Bool, true, ◌&&◌, Option, none, some, String,
  ◌∷◌, ok, err, err-ne-ok, ok-injective, Option-cases, Bool-cases, some-ne-none, List-cases, arith,
  tests, str_eq, length,
}
use teamem_server.Table.{filter, returning, first-filter_holds}
use teamem_server.Table.Unique.{first-map}
use teamem_server.Auth.Scope.{get_team_id}
use teamem_server.Jobs.Rows.{queued, processing, JobRow, JobStore, in_scope}
use teamem_server.Jobs.Lifecycle.{
  RetryMode, get_job, is_retryable, requeued_row, reset_job_for_retry, claim_job,
}
use teamem_server.Jobs.Lifecycle.Retry.{
  reset-won, reset_job_for_retry-none, claim-reset_job_for_retry,
}
use teamem_server.Team.Roles.{HttpError}
use teamem_server.Jobs.RetryRoute.{
  Sent, Backend, Caller, RetryReply, parse_retry_mode, is_admin, is_running, has_nothing_failed,
  is_only_failed, message_for, reset_and_send, retry_row, retry_job,
}

-- The job that a retry takes back is in the scope and under the id of the call.
reset-scope :
    (team proj id : String) (now : ℕ) (mode : RetryMode) (db : JobStore) (job : JobRow)
    → (reset_job_for_retry now team proj id mode db).1 ≡ some job
    → in_scope team proj id job ≡ true
unfolding returning
reset-scope team proj id now mode db job h =
    let (won, after) = reset-won team proj id now mode db job h in
    let (old, found, same) =
      first-map requeued_row (filter (is_retryable team proj id) db.jobs) job won in
    subst (λ r. in_scope team proj id r ≡ true) same
      (ground (arith, first-filter_holds (is_retryable team proj id) db.jobs old found))

module _ (meanwhile : JobStore → JobStore) (message_id : String) (now : ℕ) where
  -- One message was sent, a claim by its fields gets a row, and this is the job of the answer.
  abbrev pub IsHandedOver : ℕ → Backend → Backend → RetryReply → Type 0
  IsHandedOver later db after reply =
      (m : Sent) × (row : JobRow) × (after.sent ≡ m ∷ db.sent)
      × (m.message_id ≡ message_id)
      × (reply.id ≡ m.job_id)
      × (reply.status ≡ queued)
      × ((claim_job later m.team_id m.project_id m.job_id after.job_store).1 ≡ some row)
      × (row.id ≡ reply.id)
      × (row.status ≡ processing)
      × (row.started_at ≡ some later)

  reset_and_send-IsHandedOver :
      (later : ℕ) (team proj id : String) (mode : RetryMode) (db : Backend) (reply : RetryReply)
      → length (filter (λ r. str_eq r.id id) (meanwhile db.job_store).jobs) ≤ 1
      → (reset_and_send true meanwhile message_id now team proj id mode db).1 ≡ ok reply
      → IsHandedOver later db
          (reset_and_send true meanwhile message_id now team proj id mode db).0
          reply
  unfolding reset_and_send
  reset_and_send-IsHandedOver later team proj id mode db reply one h =
      let reset = reset_job_for_retry now team proj id mode (meanwhile db.job_store) in
      elim (Option-cases reset.1) [
        | inl lost ↦ absurd (err-ne-ok (rw (lost, reset_and_send) at h))
        | inr (job, won) ↦
            let (
              is_queued,
              (old, row, only, claims, named, runs, one_more, started, ended, cleared),
            ) =
              claim-reset_job_for_retry team proj id now later mode (meanwhile db.job_store) job one
                won in
            let scoped = reset-scope team proj id now mode (meanwhile db.job_store) job won in
            let same_id : job.id ≡ id = grind (tests, scoped) in
            let same_team : job.team_id ≡ team = grind (tests, scoped) in
            let same_proj : job.project_id ≡ proj = grind (tests, scoped) in
            let answered : ◌≡◌ {A = RetryReply}
                (record { id = job.id; status = job.status; mode = mode }) reply =
              ok-injective (rw (won, reset_and_send) at h) in
            (
              message_for message_id job,
              row,
              rw (won, reset_and_send) refl,
              refl,
              sym (ap (λ (r : RetryReply). r.id) answered),
              sym (ap (λ (r : RetryReply). r.status) answered) ∙ is_queued,
              rw (won, reset_and_send)
                  (subst (λ t. (claim_job later t job.project_id job.id reset.0).1 ≡ some row)
                    (sym same_team)
                    (subst (λ p. (claim_job later team p job.id reset.0).1 ≡ some row)
                      (sym same_proj)
                      (subst (λ i. (claim_job later team proj i reset.0).1 ≡ some row) (sym same_id)
                        claims))),
              named ∙ sym same_id ∙ ap (λ (r : RetryReply). r.id) answered,
              runs,
              started,
            )
      ]

  retry_row-IsHandedOver :
      (later : ℕ) (team id : String) (row : JobRow) (mode : RetryMode) (db : Backend)
      (reply : RetryReply)
      → length (filter (λ r. str_eq r.id id) (meanwhile db.job_store).jobs) ≤ 1
      → (retry_row true meanwhile message_id now team id row mode db).1 ≡ ok reply
      → IsHandedOver later db (retry_row true meanwhile message_id now team id row mode db).0 reply
  unfolding retry_row
  retry_row-IsHandedOver later team id row mode db reply one h =
      elim (Bool-cases (is_running row.status)) [
        | inl runs ↦ absurd (err-ne-ok (rw runs at h))
        | inr ended ↦
            elim (Bool-cases
              (is_only_failed mode && has_nothing_failed team row.project_id id db.job_store)) [
                | inl nothing ↦ absurd (err-ne-ok (rw (ended, nothing) at h))
                | inr something ↦
                    rw (ended, something)
                      (reset_and_send-IsHandedOver later team row.project_id id mode db reply one
                        (rw (ended, something) at h))
              ]
      ]

  -- With a queue, and at most one row under the job's id when it is reset: a retry that the route
  -- answers with success has sent just one message, for the job of the answer, which is queued, and
  -- the next claim by the scope and the id that the message holds gets that job, in processing, at
  -- any time.
  pub retry_job-IsHandedOver :
      (later : ℕ) (caller : Caller) (id : String) (body : Option String) (db : Backend)
      (reply : RetryReply)
      → length (filter (λ r. str_eq r.id id) (meanwhile db.job_store).jobs) ≤ 1
      → (retry_job true meanwhile message_id now caller id body db).1 ≡ ok reply
      → IsHandedOver later db (retry_job true meanwhile message_id now caller id body db).0 reply
  unfolding retry_job
  retry_job-IsHandedOver later caller id body db reply one h =
      elim (Bool-cases (is_admin caller.team_role)) [
        | inr refused ↦ absurd (err-ne-ok (rw refused at h))
        | inl allowed ↦ elim (Bool-cases (str_eq id "")) [
          | inl unnamed ↦ absurd (err-ne-ok (rw (allowed, unnamed) at h))
          | inr named ↦ elim (Option-cases (get_job db.job_store caller.scope id)) [
            | inl missing ↦ absurd (err-ne-ok (rw (allowed, named, missing) at h))
            | inr (row, found) ↦
                rw (allowed, named, found)
                  (retry_row-IsHandedOver later (get_team_id caller.scope) id row
                    (parse_retry_mode body) db reply one (rw (allowed, named, found) at h))
          ]
        ]
      ]

abbrev pub undisturbed : JobStore → JobStore
undisturbed db = db

-- A reset that takes no job back changes nothing.
reset_nothing :
    (team proj id : String) (now : ℕ) (mode : RetryMode) (db : JobStore)
    → (reset_job_for_retry now team proj id mode db).1 ≡ none
    → (reset_job_for_retry now team proj id mode db).0 ≡ db
unfolding reset_job_for_retry returning
reset_nothing team proj id now mode db h =
    elim (List-cases (filter (is_retryable team proj id) db.jobs)) [
      | inl missing ↦
          ap (λ (p : JobStore × Option JobRow). p.0)
            (reset_job_for_retry-none team proj id now mode db missing)
      | inr (row, rows, found) ↦ absurd (some-ne-none (rw (found, reset_job_for_retry) at h))
    ]

-- A retry that no other call interleaves with and that the route refuses, for whatever reason,
-- changes no table and sends nothing.
pub retry_job_refused :
    (has_queue : Bool) (message_id : String) (now : ℕ) (caller : Caller) (id : String)
    (body : Option String) (db : Backend) (e : HttpError)
    → (retry_job has_queue undisturbed message_id now caller id body db).1 ≡ err e
    → (retry_job has_queue undisturbed message_id now caller id body db).0 ≡ db
unfolding retry_job retry_row reset_and_send
retry_job_refused has_queue message_id now caller id body db e h =
    elim (Bool-cases (is_admin caller.team_role)) [
      | inr refused ↦ rw refused refl
      | inl allowed ↦ elim (Bool-cases (str_eq id "")) [
        | inl unnamed ↦ rw (allowed, unnamed) refl
        | inr named ↦ elim (Option-cases (get_job db.job_store caller.scope id)) [
          | inl missing ↦ rw (allowed, named, missing) refl
          | inr (row, found) ↦
              rw (allowed, named, found)
                (row_refused (get_team_id caller.scope) row (rw (allowed, named, found) at h))
        ]
      ]
    ]
  where
    mode : RetryMode
    mode = parse_retry_mode body

    row_refused :
        (team : String) (row : JobRow)
        → (retry_row has_queue undisturbed message_id now team id row mode db).1 ≡ err e
        → (retry_row has_queue undisturbed message_id now team id row mode db).0 ≡ db
    row_refused team row k = elim (Bool-cases (is_running row.status)) [
      | inl runs ↦ rw runs refl
      | inr ended ↦
          elim (Bool-cases
            (is_only_failed mode && has_nothing_failed team row.project_id id db.job_store)) [
              | inl nothing ↦ rw (ended, nothing) refl
              | inr something ↦
                  elim (Option-cases
                    (reset_job_for_retry now team row.project_id id mode db.job_store).1) [
                      | inl lost ↦
                          rw (ended, something, lost, reset_and_send)
                            (ap (λ (s : JobStore). record db { job_store = s })
                              (reset_nothing team row.project_id id now mode db.job_store lost))
                      | inr (job, won) ↦
                          absurd (err-ne-ok (sym (rw (ended, something, won, reset_and_send) at k)))
                    ]
            ]
    ]
