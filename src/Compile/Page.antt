-- ===== src/Compile/Page.antt =====
-- The page that an event compiles to: steps 3a to 3h of `handleCompileJob` and
-- `executeMergeDecision`, compiler/f1/compile-job.ts.
use Prim.Native.String.{◌++◌}
use teamem_server.Prelude.{
  ℕ, Option, none, some, String, List, [], ◌∷◌, Result, ok, err, then_do, str_eq, any,
  if◌then◌else◌,
}
use teamem_server.Concepts.Rows.{ConceptStatus, disputed, ConceptStore, CreateConceptInput}
use teamem_server.Concepts.Write.{create_concept}
use teamem_server.Concepts.Merge.{
  MergeRelationship, confirms, extends, contradicts, MergeInput, merge_into_concept,
}
use teamem_server.Compile.Events.{EventRow}
use teamem_server.Compile.ToConcept.{to_concept}
use teamem_server.Compile.Services.{
  Thrown, llm_error, error, no_error, extract, skip, F2Decision, confirms_page, extends_page,
  contradicts_page, unrelated_page, Candidate, Embedder, Clients, Services,
}
use teamem_server.Compile.Candidates.{enrich_candidates, tags_of}

-- `embeddingErr instanceof Error ? embeddingErr.message : 'Embedding generation failed'`
abbrev embedding_message : Thrown → String
embedding_message (llm_error kind message) = message
embedding_message (error message) = message
embedding_message (no_error value) = "Embedding generation failed"

abbrev embedding_failed : String → Result Thrown (Option (List ℕ))
embedding_failed message = err (error ("Embedding generation failed: " ++ message))

abbrev first_vector : Result Thrown (List (List ℕ)) → Result Thrown (Option (List ℕ))
first_vector (ok ((x ∷ xs) ∷ vectors)) = ok (some (x ∷ xs))
first_vector (ok ([] ∷ vectors)) = embedding_failed "Embedding API returned an empty result"
first_vector (ok []) = embedding_failed "Embedding API returned an empty result"
first_vector (err t) = embedding_failed (embedding_message t)

-- Step 3f.
unfoldable pub embed_page : Option Embedder → CreateConceptInput → Result Thrown (Option (List ℕ))
embed_page none input = ok none
embed_page (some generate) input = first_vector (generate (input.title ++ "\n\n" ++ input.body))

-- `[...new Set(tags)]`
unfoldable pub distinct : List String → List String → List String
distinct seen [] = []
distinct seen (t ∷ ts) =
    let rest = distinct seen ts in
    let keep = t ∷ distinct (t ∷ seen) ts in if any (str_eq t) seen then rest else keep

abbrev append : List String → List String → List String
append [] ys = ys
append (x ∷ xs) ys = x ∷ append xs ys

-- How an event that compiles without a throw ends.
pub data Outcome : Type 0 where
  skips : String → Outcome
  compiles : String → Outcome

module _ (w : Services) (team proj : String) where
  abbrev pub create_page :
      CreateConceptInput → Option (List ℕ) → ConceptStore → ConceptStore × Result Thrown String
  create_page input embedding store =
      let r =
        create_concept w.is_url (w.new_uuid store) w.now (record input { embedding = embedding })
          store in
      (r.0, elim r.1 [ ok uuid ↦ ok uuid | err e ↦ err (w.thrown_by e) ])

  abbrev pub merge_request :
      String
      → MergeRelationship
      → ConceptStatus
      → String
      → String
      → CreateConceptInput
      → List String
      → Option (List ℕ)
      → MergeInput
  merge_request target relationship status title body input existing embedding = record {
    team_id = team;
    project_id = proj;
    target_id = target;
    relationship = relationship;
    merged_title = title;
    merged_body = body;
    result_status = status;
    new_evidence = input.evidence;
    new_contributors = input.contributors;
    tags = some (distinct [] (append existing input.tags));
    new_embedding = embedding;
  }

  abbrev pub merge_page : MergeInput → ConceptStore → ConceptStore × Result Thrown String
  merge_page request store =
      let r = merge_into_concept w.now request store in
      (r.0, elim r.1 [ ok report ↦ ok request.target_id | err e ↦ err (w.thrown_by e) ])

  -- `executeMergeDecision`, with the tags of the target among the candidates.
  unfoldable pub execute_merge_decision :
      F2Decision
      → CreateConceptInput
      → List Candidate
      → Option (List ℕ)
      → ConceptStore
      → ConceptStore × Result Thrown String
  unfolding create_concept merge_into_concept distinct tags_of
  execute_merge_decision (unrelated_page status title body) input cands embedding store =
      create_page input embedding store
  execute_merge_decision (confirms_page target status title body) input cands embedding store =
      merge_page
        (merge_request target confirms status title body input (tags_of target cands) embedding)
        store
  execute_merge_decision (extends_page target status title body) input cands embedding store =
      merge_page
        (merge_request target extends status title body input (tags_of target cands) embedding)
        store
  execute_merge_decision (contradicts_page target title body) input cands embedding store =
      merge_page
        (merge_request target contradicts disputed title body input (tags_of target cands)
          embedding)
        store

  -- Step 3h, on the uuids that recall returned.
  unfoldable pub decide_page :
      Clients
      → EventRow
      → CreateConceptInput
      → Option (List ℕ)
      → List String
      → ConceptStore
      → ConceptStore × Result Thrown String
  unfolding execute_merge_decision enrich_candidates create_concept
  decide_page clients e input embedding [] store = create_page input embedding store
  decide_page clients e input embedding (u ∷ us) store =
      let cands = enrich_candidates team proj store (u ∷ us) in
      elim (clients.llm.decide_merge e input cands) [
        | err t ↦ (store, err t)
        | ok decision ↦ execute_merge_decision decision input cands embedding store
      ]

  -- Steps 3f to 3h.
  unfoldable pub place_page :
      Clients → EventRow → CreateConceptInput → ConceptStore → ConceptStore × Result Thrown String
  unfolding embed_page decide_page
  place_page clients e input store = elim (embed_page clients.embedding_client input) [
    | err t ↦ (store, err t)
    | ok embedding ↦ elim (w.recall_candidates store team proj input.title input.body embedding) [
      | err t ↦ (store, err t)
      | ok uuids ↦ decide_page clients e input embedding uuids store
    ]
  ]

  -- Steps 3a to 3h.
  unfoldable pub compile_page :
      Clients → EventRow → ConceptStore → ConceptStore × Result Thrown Outcome
  unfolding to_concept place_page then_do
  compile_page clients e store = elim (w.prefilter_noise e) [
    | some reason ↦ (store, ok (skips reason))
    | none ↦ elim (clients.llm.structured e) [
      | err t ↦ (store, err t)
      | ok (skip reason) ↦ (store, ok (skips reason))
      | ok (extract x) ↦ elim (to_concept x e) [
        | none ↦ (store, ok (skips "no_knowledge"))
        | some input ↦
            then_do (place_page clients e input store) (λ uuid after. (after, ok (compiles uuid)))
      ]
    ]
  ]
