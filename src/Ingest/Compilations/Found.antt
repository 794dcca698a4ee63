-- ===== src/Ingest/Compilations/Found.antt =====
-- About the job that a new request of ingest/create-compilation.ts leaves under its key.
use teamem_server.Prelude.{
  ℕ, ◌≡◌, refl, sym, ap, ◌∙◌, subst, inl, inr, Bool, true, Option, none, some, String, List, ◌∷◌,
  ok, err-ne-ok, ok-injective, Result-cases, Option-cases, Bool-cases, List-cases, arith, length,
  if◌then◌else◌, str_eq_self,
}
use teamem_server.Table.{update_where}
use teamem_server.Jobs.Rows.{results, EventResult, JobRow, JobStore, CreateJobRequest, in_scope}
use teamem_server.Jobs.Create.{
  Constraint, create_job, find_job_by_idempotency_key, has_identity, new_row, truthy,
}
use teamem_server.Jobs.Create.Replay.{new_row-has_identity}
use teamem_server.Jobs.RetryRoute.{Sent, Backend, message_for}
use teamem_server.Jobs.Enqueue.{
  EnqueueRequest, create_failed, send_failed, create_request, upsert_events, send_message,
  enqueue_compilation,
}
use teamem_server.Ingest.Compilations.{
  CompilationRequest, done_row, create_all_settled, create_without_queue, create_and_enqueue, place,
  replay,
}
use teamem_server.Ingest.Compilations.Fresh.{
  alone, HasJob, create_job_new, jobs-upsert_events, find-first_row,
}

module _ (names : Constraint → Bool) (id : String) (now : ℕ) (req : EnqueueRequest) (key : String)
    (db : Backend) (k : req.idempotency_key ≡ some key) (truth : truthy (some key) ≡ some key)
    (missing : find_job_by_idempotency_key db.job_store req.team_id req.project_id req.kind key
      ≡ none)
    (job_id : String) where
  new_row-HasJob :
      (count : ℕ) (job : JobRow) (made : Bool) (after : JobStore)
      → new_row id now (record (create_request req) { event_count = count }) ≡ job
      → (rows : List JobRow) → after.jobs ≡ job ∷ rows
      → HasJob req key job.id after
  new_row-HasJob count job made after same rows e =
      let fresh = new_row id now (record (create_request req) { event_count = count }) in
      (
        job,
        find-first_row req key after job rows e (
            subst (λ (r : JobRow). has_identity req.team_id req.project_id req.kind key r ≡ true)
              same
              (new_row-has_identity id now (record (create_request req) { event_count = count }) key
                k)),
        refl,
        sym (ap (λ (r : JobRow). r.idempotency_request_hash) same),
        sym (ap (λ (r : JobRow). r.result_snapshot) same),
      )

  create_without_queue-HasJob :
      (create_without_queue names alone alone id now req db).1 ≡ ok job_id
      → HasJob req key job_id (create_without_queue names alone alone id now req db).0.job_store
  unfolding create_without_queue
  create_without_queue-HasJob h =
      let creq = create_request req in
      let result = create_job names alone alone id now creq db.job_store in
      elim (Result-cases result.1) [
        | inr (e, failed) ↦ absurd (err-ne-ok (rw (failed, create_without_queue) at h))
        | inl ((job, made), won) ↦
            let (same, _, grown) =
              create_job_new names id now creq key db.job_store job made (ap truthy k ∙ truth)
                missing won in
            rw (won, create_without_queue)
              (subst (λ i. HasJob req key i (upsert_events now req job.id req.event_ids result.0))
                (ok-injective (rw (won, create_without_queue) at h))
                (new_row-HasJob creq.event_count job made
                  (upsert_events now req job.id req.event_ids result.0) same db.job_store.jobs
                  (jobs-upsert_events now req job.id req.event_ids result.0
                    ∙ ap (λ (s : JobStore). s.jobs) grown
                    ∙ ap (λ r. r ∷ db.job_store.jobs) same)))
      ]

  create_all_settled-HasJob :
      (ids : List String)
      → (create_all_settled names alone alone id now req ids db).1 ≡ ok job_id
      → HasJob req key job_id (create_all_settled names alone alone id now req ids db).0.job_store
  unfolding create_all_settled update_where
  create_all_settled-HasJob ids h =
      let creq : CreateJobRequest = record (create_request req) { event_count = length ids } in
      let result = create_job names alone alone id now creq db.job_store in
      elim (Result-cases result.1) [
        | inr (e, failed) ↦ absurd (err-ne-ok (rw (failed, create_all_settled) at h))
        | inl ((job, made), won) ↦
            let (same, is_made, grown) =
              create_job_new names id now creq key db.job_store job made (ap truthy k ∙ truth)
                missing won in
            let p = in_scope req.team_id req.project_id job.id in
            let rows : result.0.jobs ≡ job ∷ db.job_store.jobs =
              ap (λ (s : JobStore). s.jobs) grown ∙ ap (λ r. r ∷ db.job_store.jobs) same in
            let same_hash : job.idempotency_request_hash ≡ req.idempotency_request_hash =
              sym (ap (λ (r : JobRow). r.idempotency_request_hash) same) in
            let snapshot : job.result_snapshot ≡ req.result_snapshot =
              sym (ap (λ (r : JobRow). r.result_snapshot) same) in
            let identified : has_identity req.team_id req.project_id req.kind key job ≡ true =
              subst (λ (r : JobRow). has_identity req.team_id req.project_id req.kind key r ≡ true)
                same (new_row-has_identity id now creq key k) in
            let marked : JobRow = if p job then done_row now job else job in
            let after : JobStore = record result.0 {
              jobs = update_where p (done_row now) result.0.jobs;
            } in
            rw (won, ← is_made, create_all_settled)
              (subst (λ i. HasJob req key i after)
                (ok-injective (rw (won, create_all_settled) at h))
                (
                  marked,
                  find-first_row req key after marked
                      (update_where p (done_row now) db.job_store.jobs)
                      (ap (update_where p (done_row now)) rows) (ground (arith, identified)),
                  ground arith,
                  ground (arith, same_hash),
                  ground (arith, snapshot),
                ))
      ]

module _ {E : Type 0} (send : Sent → List Sent → List Sent × Option E)
    (is_id_conflict : E → Bool) where
  send_message-job_store :
      (job : JobRow) (made : Bool) (db : Backend)
      → ((send_message send is_id_conflict job made db).0.job_store ≡ db.job_store)
  unfolding send_message
  send_message-job_store job made db =
      elim (Option-cases (send (message_for job.id job) db.sent).1) [
        | inl accepted ↦ rw (accepted, send_message) refl
        | inr (thrown, failed) ↦ elim (Bool-cases (is_id_conflict thrown)) [
          | inl conflict ↦ rw (failed, conflict, send_message) refl
          | inr other ↦ rw (failed, other, send_message) refl
        ]
      ]

  send_message-eq-ok :
      (job : JobRow) (made : Bool) (db : Backend) (id : String) (created : Bool)
      → (send_message send is_id_conflict job made db).1 ≡ ok (id, created)
      → job.id ≡ id
  unfolding send_message
  send_message-eq-ok job made db id created h =
      elim (Option-cases (send (message_for job.id job) db.sent).1) [
        | inl accepted ↦
            ap (λ (p : String × Bool). p.0) (ok-injective (rw (accepted, send_message) at h))
        | inr (thrown, failed) ↦ elim (Bool-cases (is_id_conflict thrown)) [
          | inl conflict ↦
              ap (λ (p : String × Bool). p.0)
                (ok-injective (rw (failed, conflict, send_message) at h))
          | inr other ↦ absurd (err-ne-ok (rw (failed, other, send_message) at h))
        ]
      ]

  module _ (names : Constraint → Bool) (id : String) (now : ℕ) (req : EnqueueRequest) (key : String)
      (db : Backend) (k : req.idempotency_key ≡ some key) (truth : truthy (some key) ≡ some key)
      (missing : find_job_by_idempotency_key db.job_store req.team_id req.project_id req.kind key
        ≡ none)
      (job_id : String) where
    create_and_enqueue-HasJob :
        (create_and_enqueue names alone alone send is_id_conflict id now req db).1 ≡ ok job_id
        → HasJob req key job_id
            (create_and_enqueue names alone alone send is_id_conflict id now req db).0.job_store
    unfolding create_and_enqueue enqueue_compilation
    create_and_enqueue-HasJob h =
        let creq = create_request req in
        let result = create_job names alone alone id now creq db.job_store in
        elim (Result-cases result.1) [
          | inr (e, failed) ↦
              absurd (err-ne-ok (rw (failed, create_and_enqueue, enqueue_compilation) at h))
          | inl ((job, made), won) ↦
              let (same, _, grown) =
                create_job_new names id now creq key db.job_store job made (ap truthy k ∙ truth)
                  missing won in
              let after = upsert_events now req job.id req.event_ids result.0 in
              let before_send : Backend = record db { job_store = after } in
              let has : HasJob req key job.id after =
                new_row-HasJob names id now req key db k truth missing job_id creq.event_count job
                  made after same db.job_store.jobs
                  (jobs-upsert_events now req job.id req.event_ids result.0
                    ∙ ap (λ (s : JobStore). s.jobs) grown
                    ∙ ap (λ r. r ∷ db.job_store.jobs) same) in
              elim (Result-cases (send_message send is_id_conflict job made before_send).1) [
                | inr (create_failed e, failed) ↦
                    absurd
                      (err-ne-ok (rw (won, failed, create_and_enqueue, enqueue_compilation) at h))
                | inr (send_failed e, failed) ↦
                    absurd
                      (err-ne-ok (rw (won, failed, create_and_enqueue, enqueue_compilation) at h))
                | inl ((sent_id, created), sent) ↦
                    rw (won, create_and_enqueue, enqueue_compilation)
                      (subst (λ s. HasJob req key job_id s)
                        (sym (send_message-job_store job made before_send))
                        (subst (λ i. HasJob req key i after)
                          (send_message-eq-ok job made before_send sent_id created sent
                            ∙ ok-injective
                                (rw (won, sent, create_and_enqueue, enqueue_compilation) at h))
                          has))
              ]
        ]

    module _ (has_queue : Bool) (hash : CompilationRequest → String) where
      pub place-HasJob :
          (ids : List String)
          → (place names alone alone send is_id_conflict has_queue hash id now req ids db).1
            ≡ ok job_id
          → HasJob req key job_id
              (place names alone alone send is_id_conflict has_queue hash id now req ids
                db).0.job_store
      unfolding place
      place-HasJob ids h = elim (List-cases req.event_ids) [
        | inl empty ↦
            rw (empty, place)
              (create_all_settled-HasJob names id now req key db k truth missing job_id ids
                (rw (empty, place) at h))
        | inr (e, es, some_events) ↦ elim (Bool-cases has_queue) [
          | inl queue ↦
              rw (some_events, queue, place)
                (create_and_enqueue-HasJob (rw (some_events, queue, place) at h))
          | inr no_queue ↦
              rw (some_events, no_queue, place)
                (create_without_queue-HasJob names id now req key db k truth missing job_id
                  (rw (some_events, no_queue, place) at h))
        ]
      ]

  module _ (names : Constraint → Bool) (has_queue : Bool) (hash : CompilationRequest → String) where
    pub replay-HasJob :
        (req : CompilationRequest) (rs : List EventResult) (id : String) (job : JobRow)
        → (job.id ≡ id)
        → job.idempotency_request_hash ≡ some (hash req)
        → job.result_snapshot ≡ some (results rs)
        → replay names alone alone send is_id_conflict has_queue hash req job
          ≡ ok (record { compilation_job_id = id; duplicate = true; results = rs })
    unfolding replay
    replay-HasJob req rs id job same hashed snapshot =
        rw (hashed, snapshot, same, str_eq_self (hash req)) refl
