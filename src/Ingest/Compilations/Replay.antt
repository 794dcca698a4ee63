-- ===== src/Ingest/Compilations/Replay.antt =====
-- About a request of ingest/create-compilation.ts that is sent again.
use teamem_server.Prelude.{
  ℕ, ◌≡◌, refl, sym, ap, ◌∙◌, subst, inl, inr, Bool, true, false, Option, none, some, String, List,
  Result, ok, err, err-ne-ok, ok-injective, Option-cases, Bool-cases, str_eq, col_eq,
}
use teamem_server.Auth.Scope.{get_team_id}
use teamem_server.Jobs.Rows.{EventResult, compilation, JobRow}
use teamem_server.Jobs.Create.{Constraint, truthy, find_job_by_idempotency_key}
use teamem_server.Jobs.Lifecycle.{get_event_compilation_status}
use teamem_server.Jobs.RetryRoute.{Sent}
use teamem_server.Compile.Events.{get_events_by_ids}
use teamem_server.Ingest.Compilations.{
  Server, AuthContext, CompilationRequest, CompilationResponse, CompilationError, enqueue_request,
  classify_events, place, Placed, reply_for, compile_new, replay, scope_error,
  post_compilations_handler,
}
use teamem_server.Ingest.Compilations.Fresh.{alone}
use teamem_server.Ingest.Compilations.Found.{place-HasJob, replay-HasJob}

module _ {E : Type 0} (send : Sent → List Sent → List Sent × Option E) (is_id_conflict : E → Bool)
    (names_constraint : Constraint → Bool) (has_queue : Bool)
    (hash : CompilationRequest → String) where
  -- `post_compilations_handler` with nobody else at work.
  abbrev pub post :
      String
      → ℕ
      → AuthContext
      → CompilationRequest
      → Server
      → Server × Result CompilationError CompilationResponse
  post id now auth req db =
      post_compilations_handler names_constraint alone alone send is_id_conflict has_queue hash id
        now auth req db

  replay-eq-ok :
      (req : CompilationRequest) (existing : JobRow) (reply : CompilationResponse)
      → replay names_constraint alone alone send is_id_conflict has_queue hash req existing
        ≡ ok reply
      → replay names_constraint alone alone send is_id_conflict has_queue hash req existing
        ≡ ok (record reply { duplicate = true })
  unfolding replay
  replay-eq-ok req existing reply h =
      elim (Bool-cases (col_eq existing.idempotency_request_hash (hash req))) [
        | inr other ↦ absurd (err-ne-ok (rw other at h))
        | inl same ↦ rw same (
            ap (λ (r : CompilationResponse). ok (record r { duplicate = true }))
              (ok-injective (rw same at h)))
      ]

  reply_for-eq-ok :
      (db : Server) (rs : List EventResult) (placed : Placed) (reply : CompilationResponse)
      → (reply_for names_constraint alone alone send is_id_conflict has_queue hash db rs placed).1
        ≡ ok reply
      → (id : String) × (placed.1 ≡ ok id)
        × ◌≡◌ {A = CompilationResponse}
            (record { compilation_job_id = id; duplicate = false; results = rs })
            reply
  reply_for-eq-ok db rs (after, err e) reply h = absurd (err-ne-ok h)
  reply_for-eq-ok db rs (after, ok id) reply h = (id, refl, ok-injective h)

  -- What a new request leaves answers the same request.
  compile_new-replay :
      (auth : AuthContext) (req : CompilationRequest) (db : Server) (id : String) (now : ℕ)
      (reply : CompilationResponse)
      → str_eq req.idempotency_key "" ≡ false
      → find_job_by_idempotency_key db.backend.job_store
          (get_team_id auth.scope)
          req.project_id
          compilation
          req.idempotency_key
        ≡ none
      → (compile_new names_constraint alone alone send is_id_conflict has_queue hash id now auth req
          db).1
        ≡ ok reply
      → (job : JobRow) × (find_job_by_idempotency_key
            (compile_new names_constraint alone alone send is_id_conflict has_queue hash id now auth
              req db).0.backend.job_store
            (get_team_id auth.scope)
            req.project_id
            compilation
            req.idempotency_key
          ≡ some job)
        × (replay names_constraint alone alone send is_id_conflict has_queue hash req job
            ≡ ok (record reply { duplicate = true }))
  unfolding compile_new truthy
  compile_new-replay auth req db id now reply keyed missing h =
      let team = get_team_id auth.scope in
      let (rs, ids) =
        classify_events (get_events_by_ids db.events team req.project_id req.event_ids)
          (get_event_compilation_status db.backend.job_store team req.project_id req.event_ids)
          req.event_ids in
      let asked = enqueue_request auth req (hash req) rs ids in
      let placed : Placed =
        place names_constraint alone alone send is_id_conflict has_queue hash id now asked
          req.event_ids db.backend in
      let (job_id, won, answered) = reply_for-eq-ok db rs placed reply h in
      let (job, found, same, hashed, snapshot) =
        place-HasJob send is_id_conflict names_constraint id now asked req.idempotency_key
          db.backend refl (rw keyed refl) missing job_id has_queue hash req.event_ids won in
      (
        job,
        found,
        replay-HasJob send is_id_conflict names_constraint has_queue hash req rs job_id job same
              hashed snapshot
            ∙ ap (λ (r : CompilationResponse). ok (record r { duplicate = true })) answered,
      )

  post_known :
      (id : String) (now : ℕ) (auth : AuthContext) (req : CompilationRequest) (db : Server)
      (job : JobRow)
      → scope_error auth.scope req.project_id db.projects ≡ none
      → find_job_by_idempotency_key db.backend.job_store
          (get_team_id auth.scope)
          req.project_id
          compilation
          req.idempotency_key
        ≡ some job
      → post id now auth req db
        ≡ (db, replay names_constraint alone alone send is_id_conflict has_queue hash req job)
  unfolding post_compilations_handler
  post_known id now auth req db job allowed found =
      rw (allowed, found, post_compilations_handler) refl

  -- With nobody else at work and a key that is not empty: a request that was answered and is sent
  -- again, at any time with nothing in between, gets the job and the results of the first answer, is
  -- called a duplicate, and changes nothing.
  pub post-post :
      (auth : AuthContext) (req : CompilationRequest) (db : Server) (id later_id : String)
      (now later : ℕ) (reply : CompilationResponse)
      → str_eq req.idempotency_key "" ≡ false
      → (post id now auth req db).1 ≡ ok reply
      → post later_id later auth req (post id now auth req db).0
        ≡ ((post id now auth req db).0, ok (record reply { duplicate = true }))
  unfolding post_compilations_handler compile_new
  post-post auth req db id later_id now later reply keyed h =
      elim (Option-cases (scope_error auth.scope req.project_id db.projects)) [
        | inr (e, refused) ↦ absurd (err-ne-ok (rw (refused, post_compilations_handler) at h))
        | inl allowed ↦
            elim (Option-cases (
              find_job_by_idempotency_key db.backend.job_store (get_team_id auth.scope)
                req.project_id compilation req.idempotency_key)) [
                  | inr (existing, found) ↦
                      subst
                        (λ (p : Server × Result CompilationError CompilationResponse).
                          post later_id later auth req p.0
                          ≡ (p.0, ok (record reply { duplicate = true })))
                        (sym (post_known id now auth req db existing allowed found))
                        (post_known later_id later auth req db existing allowed found
                          ∙ ap (λ (r : Result CompilationError CompilationResponse). (db, r))
                              (replay-eq-ok req existing reply (
                                ap
                                  (λ (p : Server × Result CompilationError CompilationResponse).
                                    p.1)
                                  (sym (post_known id now auth req db existing allowed found))
                                ∙ h)))
                  | inl missing ↦
                      let (job, found, answer) =
                        compile_new-replay auth req db id now reply keyed missing
                          (rw (allowed, missing, post_compilations_handler) at h) in
                      let first_post =
                        compile_new names_constraint alone alone send is_id_conflict has_queue hash
                          id now auth req db in
                      let posted : post id now auth req db ≡ first_post =
                        rw (allowed, missing, post_compilations_handler) refl in
                      subst
                        (λ (p : Server × Result CompilationError CompilationResponse).
                          post later_id later auth req p.0
                          ≡ (p.0, ok (record reply { duplicate = true })))
                        (sym posted)
                        (post_known later_id later auth req first_post.0 job allowed found
                          ∙ ap
                              (λ (r : Result CompilationError CompilationResponse).
                                (first_post.0, r))
                              answer)
                ]
      ]
