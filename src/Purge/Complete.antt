-- ===== src/Purge/Complete.antt =====
-- What the purge of db/repositories/purge.ts leaves.
use teamem_server.Prelude.{
  ◌≡◌, refl, sym, ap, ◌∙◌, inl, inr, Bool, true, false, not, ◌&&◌, String, List, [], ◌∷◌, Result,
  ok, any, length, Bool-cases, tests,
}
use teamem_server.Table.{filter}
use teamem_server.Jobs.Rows.{JobRow, JobEventRow, JobStore}
use teamem_server.Concepts.Rows.{ConceptRow, PathRow, EvidenceRow, ContributorRow, ConceptStore}
use teamem_server.Ingest.Events.{StoredEvent}
use teamem_server.Purge.{
  ProjectStore, PurgeCounts, ForeignKey, Deleted, is_of, names, delete_rows, check, after_check,
  of_concept, of_path, of_evidence, of_contributor, of_job, of_job_event, of_event, delete_concepts,
  delete_jobs, delete_events, purge_project_data,
}

-- A child row that is left names no row of the project.
not_named :
    (team proj t p id u v i : String)
    → is_of team proj u v ≡ false
    → (is_of team proj t p && names t p id u v i) ≡ false
not_named team proj t p id u v i other = grind (tests, other)

-- The rows that are left of a table of children name no row that is deleted.
module _ {A C : Type 0} (refers : C → A → Bool) (p : A → Bool) (q : C → Bool)
    (apart : (c : C) (r : A) → q c ≡ false → (p r && refers c r) ≡ false) where
  no_child_left :
      (children : List C) (r : A)
      → p r ≡ true
      → any (λ c. refers c r) (filter (λ c. not (q c)) children) ≡ false
  unfolding filter
  no_child_left [] r h = refl
  no_child_left (c ∷ children) r h = elim (Bool-cases (q c)) [
    | inl gone ↦ rw gone (no_child_left children r h)
    | inr kept ↦
        let elsewhere : refers c r ≡ false = sym (rw h refl) ∙ apart c r kept in
        rw (kept, elsewhere) (no_child_left children r h)
  ]

  pub check-deleted :
      (fk : ForeignKey) (children : List C) (rows : List A)
      → check fk refers (filter (λ c. not (q c)) children) p rows ≡ ok tt
  unfolding check
  check-deleted fk children rows = rw (none_named rows) refl
    where
      none_named :
          (rows : List A)
          → any (λ r. p r && any (λ c. refers c r) (filter (λ c. not (q c)) children)) rows ≡ false
      none_named [] = refl
      none_named (r ∷ rows) = elim (Bool-cases (p r)) [
        | inl ours ↦ rw (ours, no_child_left children r ours) (none_named rows)
        | inr other ↦ rw other (none_named rows)
      ]

after_check-ok :
    {A : Type 0} (c : Result ForeignKey Unit) (next rest : Deleted A)
    → c ≡ ok tt
    → next ≡ rest
    → after_check c next ≡ rest
unfolding after_check
after_check-ok c next rest h k = ap (λ d. after_check d next) h ∙ k

module _ (team proj : String) where
  abbrev left : {A : Type 0} → (A → Bool) → List A → List A
  left p rows = filter (λ r. not (p r)) rows

  delete_concepts-deleted :
      (db : ConceptStore)
      → delete_concepts team proj
          (left (of_contributor team proj) db.contributors)
          (left (of_evidence team proj) db.evidence)
          (left (of_path team proj) db.paths)
          db.concepts
        ≡ ok (delete_rows (of_concept team proj) db.concepts)
  unfolding delete_concepts after_check
  delete_concepts-deleted db =
      after_check-ok _ _ (ok (delete_rows (of_concept team proj) db.concepts))
        (check-deleted
          (λ (c : ContributorRow) (r : ConceptRow).
            names r.team_id r.project_id r.uuid c.team_id c.project_id c.concept_uuid)
          (of_concept team proj) (of_contributor team proj)
          (λ c r kept.
            not_named team proj r.team_id r.project_id r.uuid c.team_id c.project_id c.concept_uuid
              kept)
          ForeignKey.concept_contributors_concept_fk db.contributors db.concepts)
        (after_check-ok _ _ (ok (delete_rows (of_concept team proj) db.concepts))
          (check-deleted
            (λ (c : EvidenceRow) (r : ConceptRow).
              names r.team_id r.project_id r.uuid c.team_id c.project_id c.concept_uuid)
            (of_concept team proj) (of_evidence team proj)
            (λ c r kept.
              not_named team proj r.team_id r.project_id r.uuid c.team_id c.project_id
                c.concept_uuid kept)
            ForeignKey.concept_evidence_concept_fk db.evidence db.concepts)
          (after_check-ok _ (ok (delete_rows (of_concept team proj) db.concepts))
            (ok (delete_rows (of_concept team proj) db.concepts))
            (check-deleted
              (λ (c : PathRow) (r : ConceptRow).
                names r.team_id r.project_id r.uuid c.team_id c.project_id c.concept_uuid)
              (of_concept team proj) (of_path team proj)
              (λ c r kept.
                not_named team proj r.team_id r.project_id r.uuid c.team_id c.project_id
                  c.concept_uuid kept)
              ForeignKey.concept_paths_concept_fk db.paths db.concepts)
            refl))

  delete_jobs-deleted :
      (db : JobStore)
      → delete_jobs team proj (left (of_job_event team proj) db.job_events) db.jobs
        ≡ ok (delete_rows (of_job team proj) db.jobs)
  unfolding delete_jobs after_check
  delete_jobs-deleted db =
      ap (λ c. after_check c (ok (delete_rows (of_job team proj) db.jobs)))
        (check-deleted
          (λ (c : JobEventRow) (r : JobRow).
            names r.team_id r.project_id r.id c.team_id c.project_id c.job_id)
          (of_job team proj) (of_job_event team proj)
          (λ c r kept.
            not_named team proj r.team_id r.project_id r.id c.team_id c.project_id c.job_id kept)
          ForeignKey.job_events_job_fk db.job_events db.jobs)

  delete_events-deleted :
      (job_events : List JobEventRow) (events : List StoredEvent)
      → delete_events team proj (left (of_job_event team proj) job_events) events
        ≡ ok (delete_rows (of_event team proj) events)
  unfolding delete_events after_check
  delete_events-deleted job_events events =
      ap (λ c. after_check c (ok (delete_rows (of_event team proj) events)))
        (check-deleted
          (λ (c : JobEventRow) (e : StoredEvent).
            names e.values.team_id e.values.project_id e.id c.team_id c.project_id c.event_id)
          (of_event team proj) (of_job_event team proj)
          (λ c e kept.
            not_named team proj e.values.team_id e.values.project_id e.id c.team_id c.project_id
              c.event_id kept)
          ForeignKey.job_events_event_fk job_events events)

  -- The tables with just the rows of other projects, and the numbers of the project's rows.
  abbrev pub without_project : ProjectStore → ProjectStore
  without_project db = record {
    concept_store = record {
      concepts = left (of_concept team proj) db.concept_store.concepts;
      paths = left (of_path team proj) db.concept_store.paths;
      evidence = left (of_evidence team proj) db.concept_store.evidence;
      contributors = left (of_contributor team proj) db.concept_store.contributors;
    };
    job_store = record {
      jobs = left (of_job team proj) db.job_store.jobs;
      job_events = left (of_job_event team proj) db.job_store.job_events;
    };
    events = left (of_event team proj) db.events;
  }

  abbrev pub counted : ProjectStore → PurgeCounts
  counted db = record {
    events_deleted = length (filter (of_event team proj) db.events);
    concepts_deleted = length (filter (of_concept team proj) db.concept_store.concepts);
    concept_paths_deleted = length (filter (of_path team proj) db.concept_store.paths);
    concept_evidence_deleted = length (filter (of_evidence team proj) db.concept_store.evidence);
    concept_contributors_deleted =
        length (filter (of_contributor team proj) db.concept_store.contributors);
    jobs_deleted = length (filter (of_job team proj) db.job_store.jobs);
    job_events_deleted = length (filter (of_job_event team proj) db.job_store.job_events);
  }

  -- A purge always commits: no foreign key refuses its order of deletion, whatever the tables hold. It leaves just the
  -- rows of the other projects, as they were, and reports for each table how many rows the project had.
  pub purge_project_data_lem :
      (db : ProjectStore) → purge_project_data team proj db ≡ (without_project db, ok (counted db))
  unfolding purge_project_data delete_rows
  purge_project_data_lem db =
      rw
        (
          delete_concepts-deleted db.concept_store,
          delete_jobs-deleted db.job_store,
          delete_events-deleted db.job_store.job_events db.events,
          purge_project_data,
        )
        refl
