-- ===== src/Compile/Worker/Evidence.antt =====
-- About the evidence of pages through a delivery.
use teamem_server.Prelude.{
  ℕ, inl, inr, Option, String, List, [], ◌∷◌, ok, Result-cases, Option-cases, Bool-cases,
  then_do-keeps, All-intro,
}
use teamem_server.Concepts.Rows.{ConceptStore, CreateConceptInput}
use teamem_server.Concepts.Merge.{MergeInput, confirms, extends, contradicts}
use teamem_server.Concepts.Rows.{disputed}
use teamem_server.Concepts.Evidence.{
  HasEvidence, create_concept-HasEvidence, merge_into_concept-HasEvidence,
}
use teamem_server.Compile.Events.{EventRow}
use teamem_server.Compile.ToConcept.{to_concept}
use teamem_server.Compile.Services.{
  extract, skip, F2Decision, confirms_page, extends_page, contradicts_page, unrelated_page,
  Candidate, claim_it, set_status, set_outcome, Clients, HandlerDeps, Services,
}
use teamem_server.Compile.Candidates.{enrich_candidates, tags_of}
use teamem_server.Compile.Page.{
  compiles, embed_page, create_page, merge_request, merge_page, execute_merge_decision, decide_page,
  place_page, compile_page,
}
use teamem_server.Compile.Run.{Database, JobRef, set_job_status, record_outcome, placed}
use teamem_server.Compile.Run.Keeps.{KeptByStatus, KeptByOutcome, KeptByPage}
use teamem_server.Compile.Worker.{
  Message, is_well_formed, job_of, claimed_database, deliver_job, deliver,
}
use teamem_server.Jobs.Lifecycle.{claim_job}
use teamem_server.Compile.Worker.Keeps.{claimed-keeps}

module _ (w : Services) (team proj : String) where
  create_page-HasEvidence :
      (input : CreateConceptInput) (embedding : Option (List ℕ)) (store : ConceptStore)
      → HasEvidence store
      → HasEvidence (create_page w team proj input embedding store).0
  create_page-HasEvidence input embedding store h =
      create_concept-HasEvidence w.is_url (w.new_uuid store) w.now
        (record input { embedding = embedding }) store h

  merge_page-HasEvidence :
      (request : MergeInput) (store : ConceptStore)
      → HasEvidence store
      → HasEvidence (merge_page w team proj request store).0
  merge_page-HasEvidence request store h = merge_into_concept-HasEvidence w.now request store h

  execute-HasEvidence :
      (d : F2Decision) (input : CreateConceptInput) (cands : List Candidate)
      (embedding : Option (List ℕ)) (store : ConceptStore)
      → HasEvidence store
      → HasEvidence (execute_merge_decision w team proj d input cands embedding store).0
  unfolding execute_merge_decision
  execute-HasEvidence (unrelated_page status title body) input cands embedding store h =
      create_page-HasEvidence input embedding store h
  execute-HasEvidence (confirms_page target status title body) input cands embedding store h =
      merge_page-HasEvidence
        (merge_request w team proj target confirms status title body input (tags_of target cands)
          embedding)
        store h
  execute-HasEvidence (extends_page target status title body) input cands embedding store h =
      merge_page-HasEvidence
        (merge_request w team proj target extends status title body input (tags_of target cands)
          embedding)
        store h
  execute-HasEvidence (contradicts_page target title body) input cands embedding store h =
      merge_page-HasEvidence
        (merge_request w team proj target contradicts disputed title body input
          (tags_of target cands) embedding)
        store h

  decide_page-HasEvidence :
      (clients : Clients) (e : EventRow) (input : CreateConceptInput) (embedding : Option (List ℕ))
      (uuids : List String) (store : ConceptStore)
      → HasEvidence store
      → HasEvidence (decide_page w team proj clients e input embedding uuids store).0
  unfolding decide_page
  decide_page-HasEvidence clients e input embedding [] store h =
      create_page-HasEvidence input embedding store h
  decide_page-HasEvidence clients e input embedding (u ∷ us) store h =
      let cands = enrich_candidates team proj store (u ∷ us) in
      elim (Result-cases (clients.llm.decide_merge e input cands)) [
        | inr (t, failed) ↦ rw (failed, decide_page) h
        | inl (d, decided) ↦
            rw (decided, decide_page) (execute-HasEvidence d input cands embedding store h)
      ]

  place_page-HasEvidence :
      (clients : Clients) (e : EventRow) (input : CreateConceptInput) (store : ConceptStore)
      → HasEvidence store
      → HasEvidence (place_page w team proj clients e input store).0
  unfolding place_page
  place_page-HasEvidence clients e input store h =
      elim (Result-cases (embed_page clients.embedding_client input)) [
        | inr (t, failed) ↦ rw (failed, place_page) h
        | inl (embedding, embedded) ↦
            elim (Result-cases
              (w.recall_candidates store team proj input.title input.body embedding)) [
                | inr (t, failed) ↦ rw (embedded, place_page, failed) h
                | inl (uuids, recalled) ↦
                    rw (embedded, place_page, recalled)
                      (decide_page-HasEvidence clients e input embedding uuids store h)
              ]
      ]

  compile_page-HasEvidence :
      (clients : Clients) (e : EventRow) (store : ConceptStore)
      → HasEvidence store
      → HasEvidence (compile_page w team proj clients e store).0
  unfolding compile_page
  compile_page-HasEvidence clients e store h = elim (Option-cases (w.prefilter_noise e)) [
    | inr (reason, noise) ↦ rw (noise, compile_page) h
    | inl substantial ↦ elim (Result-cases (clients.llm.structured e)) [
      | inr (t, failed) ↦ rw (substantial, compile_page, failed) h
      | inl (skip reason, answered) ↦ rw (substantial, compile_page, answered) h
      | inl (extract x, answered) ↦ elim (Option-cases (to_concept x e)) [
        | inl unsupported ↦ rw (substantial, compile_page, answered, unsupported) h
        | inr (input, mapped) ↦
            rw (substantial, compile_page, answered, mapped)
              (then_do-keeps HasEvidence (place_page w team proj clients e input store)
                (λ uuid after. (after, ok (compiles uuid)))
                (place_page-HasEvidence clients e input store h) (λ uuid after k. k))
      ]
    ]
  ]

abbrev AnyEvent : EventRow → Type 0
AnyEvent e = Unit

abbrev HasEvidenceIn : Database → Type 0
HasEvidenceIn db = HasEvidence db.concept_store

module _ (w : Services) (job : JobRef) where
  by_status : KeptByStatus w job HasEvidenceIn AnyEvent
  unfolding set_job_status
  by_status s er n db h = elim (Option-cases (w.outage (set_status s))) [
    | inl up ↦ rw (up, set_job_status) h
    | inr (t, down) ↦ rw (down, set_job_status) h
  ]

  by_outcome : KeptByOutcome w job HasEvidenceIn AnyEvent
  unfolding record_outcome
  by_outcome e s reason er uuids db q done h = elim (Option-cases (w.outage (set_outcome e.id s))) [
    | inl up ↦ rw (up, record_outcome) h
    | inr (t, down) ↦ rw (down, record_outcome) h
  ]

  by_page : KeptByPage w job HasEvidenceIn AnyEvent
  unfolding placed
  by_page clients e db h =
      compile_page-HasEvidence w job.team_id job.project_id clients e db.concept_store h

  deliver_job-HasEvidence :
      (deps : HandlerDeps) (db : Database)
      → HasEvidenceIn db
      → HasEvidenceIn (deliver_job w deps job db).0
  unfolding deliver_job claimed_database
  deliver_job-HasEvidence deps db h = elim (Option-cases (w.outage claim_it)) [
    | inr (t, down) ↦ rw (down, deliver_job) h
    | inl up ↦
        elim (Option-cases (claim_job w.now job.team_id job.project_id job.job_id db.job_store).1) [
          | inl lost ↦ rw (up, deliver_job, lost, deliver_job) h
          | inr (row, won) ↦
              rw (up, deliver_job, won, deliver_job)
                (claimed-keeps w deps job HasEvidenceIn AnyEvent by_outcome by_page by_status
                  (claimed_database w deps job db) (All-intro AnyEvent (λ e. tt) _) h)
        ]
  ]

-- If each page has a row of evidence, then each page has one after a delivery, whatever the models
-- answer and wherever the database throws.
pub deliver-HasEvidence :
    (w : Services) (deps : HandlerDeps) (msg : Message) (db : Database)
    → HasEvidence db.concept_store
    → HasEvidence (deliver w deps msg db).0.concept_store
unfolding deliver
deliver-HasEvidence w deps msg db h = elim (Bool-cases (is_well_formed msg)) [
  | inl well ↦ rw (well, deliver) (deliver_job-HasEvidence w (job_of msg) deps db h)
  | inr malformed ↦ rw (malformed, deliver) h
]
