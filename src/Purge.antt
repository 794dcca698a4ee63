-- ===== src/Purge.antt =====
-- The purge of a project, db/repositories/purge.ts, on the tables that it deletes from, with the foreign keys between
-- them (db/schema.ts). A foreign key refuses the DELETE of a row that another row still names.
pub mod Complete
mod Tests
use teamem_server.Prelude.{
  ℕ, Bool, true, false, not, ◌&&◌, ◌||◌, String, List, [], ◌∷◌, Result, ok, err, str_eq, any,
  length, if◌then◌else◌,
}
use teamem_server.Table.{filter, delete_where}
use teamem_server.Jobs.Rows.{JobRow, JobEventRow, JobStore}
use teamem_server.Concepts.Rows.{ConceptRow, PathRow, EvidenceRow, ContributorRow, ConceptStore}
use teamem_server.Ingest.Events.{StoredEvent}

pub record ProjectStore : Type 0 where
  pub concept_store : ConceptStore
  pub job_store : JobStore
  pub events : List StoredEvent

pub record PurgeCounts : Type 0 where
  pub events_deleted : ℕ
  pub concepts_deleted : ℕ
  pub concept_paths_deleted : ℕ
  pub concept_evidence_deleted : ℕ
  pub concept_contributors_deleted : ℕ
  pub jobs_deleted : ℕ
  pub job_events_deleted : ℕ

-- The foreign keys that end in a table of the purge.
pub data ForeignKey : Type 0 where
  concept_paths_concept_fk concept_evidence_concept_fk concept_contributors_concept_fk : ForeignKey
  job_events_job_fk job_events_event_fk : ForeignKey

-- The WHERE clause of every DELETE, and a reference by team, project and id.
abbrev pub is_of : String → String → String → String → Bool
is_of team proj t p = str_eq t team && str_eq p proj

abbrev pub names : String → String → String → String → String → String → Bool
names team proj id t p i = str_eq t team && (str_eq p proj && str_eq i id)

-- A DELETE with RETURNING, on a table that no other table of these names.
abbrev pub Deleted : Type 0 → Type 0
Deleted A = Result ForeignKey (List A × ℕ)

module _ {A : Type 0} where
  unfoldable pub delete_rows : (A → Bool) → List A → List A × ℕ
  unfolding filter delete_where
  delete_rows p rows = (delete_where p rows, length (filter p rows))

  -- The check of one foreign key, before a DELETE.
  unfoldable pub check :
      {C : Type 0}
      → ForeignKey
      → (C → A → Bool)
      → List C
      → (A → Bool)
      → List A
      → Result ForeignKey Unit
  check fk refers children p rows =
      if any (λ r. p r && any (λ c. refers c r) children) rows then err fk else ok tt

  unfoldable pub after_check : Result ForeignKey Unit → Deleted A → Deleted A
  after_check (err fk) next = err fk
  after_check (ok u) next = next

module _ (team proj : String) where
  abbrev pub of_concept : ConceptRow → Bool
  of_concept r = is_of team proj r.team_id r.project_id

  abbrev pub of_path : PathRow → Bool
  of_path r = is_of team proj r.team_id r.project_id

  abbrev pub of_evidence : EvidenceRow → Bool
  of_evidence r = is_of team proj r.team_id r.project_id

  abbrev pub of_contributor : ContributorRow → Bool
  of_contributor r = is_of team proj r.team_id r.project_id

  abbrev pub of_job : JobRow → Bool
  of_job r = is_of team proj r.team_id r.project_id

  abbrev pub of_job_event : JobEventRow → Bool
  of_job_event r = is_of team proj r.team_id r.project_id

  abbrev pub of_event : StoredEvent → Bool
  of_event e = is_of team proj e.values.team_id e.values.project_id

  unfoldable pub delete_concepts :
      List ContributorRow → List EvidenceRow → List PathRow → List ConceptRow → Deleted ConceptRow
  unfolding check after_check delete_rows
  delete_concepts contributors evidence paths concepts =
      after_check
        (check concept_contributors_concept_fk
          (λ (c : ContributorRow) (r : ConceptRow).
            names r.team_id r.project_id r.uuid c.team_id c.project_id c.concept_uuid)
          contributors of_concept concepts)
        (after_check
          (check concept_evidence_concept_fk
            (λ (c : EvidenceRow) (r : ConceptRow).
              names r.team_id r.project_id r.uuid c.team_id c.project_id c.concept_uuid)
            evidence of_concept concepts)
          (after_check
            (check concept_paths_concept_fk
              (λ (c : PathRow) (r : ConceptRow).
                names r.team_id r.project_id r.uuid c.team_id c.project_id c.concept_uuid)
              paths of_concept concepts)
            (ok (delete_rows of_concept concepts))))

  unfoldable pub delete_jobs : List JobEventRow → List JobRow → Deleted JobRow
  unfolding check after_check delete_rows
  delete_jobs job_events jobs =
      after_check
        (check job_events_job_fk
          (λ (c : JobEventRow) (r : JobRow).
            names r.team_id r.project_id r.id c.team_id c.project_id c.job_id)
          job_events of_job jobs)
        (ok (delete_rows of_job jobs))

  unfoldable pub delete_events : List JobEventRow → List StoredEvent → Deleted StoredEvent
  unfolding check after_check delete_rows
  delete_events job_events events =
      after_check
        (check job_events_event_fk
          (λ (c : JobEventRow) (e : StoredEvent).
            names e.values.team_id e.values.project_id e.id c.team_id c.project_id c.event_id)
          job_events of_event events)
        (ok (delete_rows of_event events))

  -- The transaction, which keeps the tables as they were where a statement throws.
  unfoldable pub purge_project_data : ProjectStore → ProjectStore × Result ForeignKey PurgeCounts
  unfolding delete_rows delete_concepts delete_jobs delete_events
  purge_project_data db =
      let contributors = delete_rows of_contributor db.concept_store.contributors in
      let evidence = delete_rows of_evidence db.concept_store.evidence in
      let paths = delete_rows of_path db.concept_store.paths in
      let job_events = delete_rows of_job_event db.job_store.job_events in
      elim (delete_concepts contributors.0 evidence.0 paths.0 db.concept_store.concepts) [
        | err fk ↦ (db, err fk)
        | ok concepts ↦ elim (delete_jobs job_events.0 db.job_store.jobs) [
          | err fk ↦ (db, err fk)
          | ok jobs ↦ elim (delete_events job_events.0 db.events) [
            | err fk ↦ (db, err fk)
            | ok events ↦ (
              record {
                concept_store = record {
                  concepts = concepts.0;
                  paths = paths.0;
                  evidence = evidence.0;
                  contributors = contributors.0;
                };
                job_store = record { jobs = jobs.0; job_events = job_events.0 };
                events = events.0;
              },
              ok (record {
                events_deleted = events.1;
                concepts_deleted = concepts.1;
                concept_paths_deleted = paths.1;
                concept_evidence_deleted = evidence.1;
                concept_contributors_deleted = contributors.1;
                jobs_deleted = jobs.1;
                job_events_deleted = job_events.1;
              }),
            )
          ]
        ]
      ]
