-- ===== src/Concepts/Write.antt =====
-- `createConcept` of db/repositories/concepts-write.ts. The uuid of the new row is the database's.
use teamem_server.Prelude.{
  ℕ, Bool, true, false, not, ◌&&◌, String, List, [], ◌∷◌, ◌++◌, map, Result, ok, err, transaction,
  if◌then◌else◌, str_eq, any,
}
use teamem_server.Table.{filter}
use teamem_server.Concepts.Rows.{
  ConceptRow, PathRow, EvidenceRow, ContributorRow, ConceptStore, EvidenceInput, ContributorInput,
  CreateConceptInput, is_trusted,
}
use teamem_server.Concepts.Contract.{is_concept_path, is_evidence_list}

-- What the repository throws. The last two of `createConcept` are the database's: the namespace of
-- paths (project_id, path), and the primary key (concept_uuid, principal_id).
pub data ConceptError : Type 0 where
  invalid_path invalid_evidence path_taken contributor_taken : ConceptError
  target_not_found incomplete_repo_file : ConceptError

abbrev pub trusted : List ContributorInput → List ContributorInput
trusted = filter (λ (c : ContributorInput). is_trusted c.provenance)

abbrev pub new_concept : String → ℕ → CreateConceptInput → ConceptRow
new_concept uuid now input = record {
  uuid = uuid;
  team_id = input.team_id;
  project_id = input.project_id;
  schema_version = input.schema_version;
  type = input.type;
  status = input.status;
  confidence = input.confidence;
  title = input.title;
  body = input.body;
  tags = input.tags;
  first_seen = input.first_seen;
  last_confirmed = input.last_confirmed;
  supersedes_uuid = input.supersedes_uuid;
  embedding = input.embedding;
  updated_at = now;
}

abbrev pub path_row : String → CreateConceptInput → PathRow
path_row uuid input = record {
  team_id = input.team_id;
  project_id = input.project_id;
  concept_uuid = uuid;
  path = input.path;
  is_current = true;
}

abbrev pub evidence_row : String → String → String → EvidenceInput → EvidenceRow
evidence_row team proj uuid ev = record {
  team_id = team;
  project_id = proj;
  concept_uuid = uuid;
  kind = ev.kind;
  ref = ev.ref;
  repo = ev.repo;
  commit_sha = ev.commit_sha;
  path = ev.path;
  at = ev.at;
}

abbrev pub contributor_row : String → String → String → ContributorInput → ContributorRow
contributor_row team proj uuid c = record {
  team_id = team;
  project_id = proj;
  concept_uuid = uuid;
  principal_id = c.principal_id;
}

-- The primary key of `concept_contributors`.
abbrev pub same_contributor : String → String → ContributorRow → Bool
same_contributor uuid principal r = str_eq r.concept_uuid uuid && str_eq r.principal_id principal

unfoldable pub repeats_principal : List ContributorInput → Bool
repeats_principal [] = false
repeats_principal (c ∷ cs) =
    if any (λ (d : ContributorInput). str_eq d.principal_id c.principal_id) cs
    then true
    else repeats_principal cs

-- The INSERT of contributors has no conflict clause: a key that is taken is thrown.
unfoldable pub insert_contributors :
    String → CreateConceptInput → ConceptStore → ConceptStore × Result ConceptError String
unfolding repeats_principal
insert_contributors uuid input db =
    let candidates = trusted input.contributors in
    if repeats_principal candidates
    then (db, err contributor_taken)
    else if any
        (λ (c : ContributorInput). any (same_contributor uuid c.principal_id) db.contributors)
        candidates
    then (db, err contributor_taken)
    else (
      record db {
        contributors =
            map (contributor_row input.team_id input.project_id uuid) candidates ++ db.contributors;
      },
      ok uuid,
    )

-- The body of the transaction.
unfoldable pub create_in :
    String → ℕ → CreateConceptInput → ConceptStore → ConceptStore × Result ConceptError String
unfolding insert_contributors
create_in uuid now input db =
    let with_concept = record db { concepts = new_concept uuid now input ∷ db.concepts } in
    if any (λ (p : PathRow). str_eq p.project_id input.project_id && str_eq p.path input.path)
      db.paths
    then (with_concept, err path_taken)
    else insert_contributors uuid input (record with_concept {
      paths = path_row uuid input ∷ db.paths;
      evidence =
          map (evidence_row input.team_id input.project_id uuid) input.evidence ++ db.evidence;
    })

module _ (is_url : String → Bool) where
  unfoldable pub create_concept :
      String → ℕ → CreateConceptInput → ConceptStore → ConceptStore × Result ConceptError String
  unfolding create_in is_concept_path is_evidence_list
  create_concept uuid now input db =
      if not (is_concept_path input.path)
      then (db, err invalid_path)
      else if not (is_evidence_list is_url input.evidence)
      then (db, err invalid_evidence)
      else transaction (create_in uuid now input) db
