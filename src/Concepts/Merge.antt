-- ===== src/Concepts/Merge.antt =====
-- `mergeIntoConcept` of db/repositories/concepts-merge.ts.
pub mod Page
pub mod Refused
pub mod Dedup
use teamem_server.Prelude.{
  ℕ, ◌==◌, Bool, true, false, not, ◌&&◌, ◌||◌, Option, none, some, String, List, [], ◌∷◌, ◌++◌, map,
  Result, ok, err, transaction, if◌then◌else◌, str_eq, any, length, first, ◌-◌,
}
use teamem_server.Table.{filter, update_where}
use teamem_server.Concepts.Rows.{
  ConceptStatus, disputed, ConceptRow, EvidenceKind, repo_file, EvidenceRow, ContributorRow,
  ConceptStore, EvidenceInput, ContributorInput, concept_in_scope,
}
use teamem_server.Concepts.Contract.{is_given}
use teamem_server.Concepts.Fingerprint.{evidence_fingerprint}
use teamem_server.Concepts.Write.{
  ConceptError, target_not_found, incomplete_repo_file, trusted, evidence_row, contributor_row,
  same_contributor,
}

pub data MergeRelationship : Type 0 where
  confirms extends contradicts : MergeRelationship

pub record MergeInput : Type 0 where
  pub team_id : String
  pub project_id : String
  pub target_id : String
  pub relationship : MergeRelationship
  pub merged_title : String
  pub merged_body : String
  pub result_status : ConceptStatus
  pub new_evidence : List EvidenceInput
  pub new_contributors : List ContributorInput
  pub tags : Option (List String)
  pub new_embedding : Option (List ℕ)

pub record MergeResult : Type 0 where
  pub uuid : String
  pub new_evidence_count : ℕ
  pub new_contributor_count : ℕ
  pub body_updated : Bool
  pub last_confirmed_updated : Bool
  pub status_disputed : Bool

abbrev pub effective_status : MergeRelationship → ConceptStatus → ConceptStatus
effective_status contradicts given = disputed
effective_status confirms given = given
effective_status extends given = given

abbrev pub is_disputed : ConceptStatus → Bool
is_disputed disputed = true
is_disputed _ = false

abbrev pub refreshes : MergeRelationship → Bool
refreshes confirms = true
refreshes extends = false
refreshes contradicts = false

abbrev pub kept_or {ℓ} : {A : Type ℓ} → Option A → A → A
kept_or none old = old
kept_or (some new) old = new

abbrev pub kept_or_null {ℓ} : {A : Type ℓ} → Option A → Option A → Option A
kept_or_null none old = old
kept_or_null (some new) old = some new

-- The update of the page; `seen` is the row that the SELECT found.
abbrev pub merged_row : ℕ → MergeInput → ConceptRow → ConceptRow → ConceptRow
merged_row now input seen c = record c {
  title = input.merged_title;
  body = input.merged_body;
  status = effective_status input.relationship input.result_status;
  last_confirmed = if refreshes input.relationship then now else seen.last_confirmed;
  updated_at = now;
  embedding = kept_or_null input.new_embedding c.embedding;
  tags = kept_or input.tags c.tags;
}

abbrev pub evidence_of : String → String → String → EvidenceRow → Bool
evidence_of team proj uuid e =
    str_eq e.team_id team && (str_eq e.project_id proj && str_eq e.concept_uuid uuid)

-- A stored row as the input of the fingerprint.
abbrev pub as_input : EvidenceRow → EvidenceInput
as_input e = record {
  kind = e.kind;
  ref = e.ref;
  repo = e.repo;
  commit_sha = e.commit_sha;
  path = e.path;
  at = e.at;
}

unfoldable pub codes_eq : List ℕ → List ℕ → Bool
codes_eq [] [] = true
codes_eq [] (d ∷ ds) = false
codes_eq (c ∷ cs) [] = false
codes_eq (c ∷ cs) (d ∷ ds) = c == d && codes_eq cs ds

-- The filter that collects fingerprints as it goes.
unfoldable pub without_duplicates : List (List ℕ) → List EvidenceInput → List EvidenceInput
unfolding codes_eq
without_duplicates seen [] = []
without_duplicates seen (ev ∷ evs) =
    let print = evidence_fingerprint ev in
    let skip = without_duplicates seen evs in
    let keep = ev ∷ without_duplicates (print ∷ seen) evs in
    if any (codes_eq print) seen then skip else keep

abbrev pub is_incomplete : EvidenceInput → Bool
is_incomplete ev = elim ev.kind [
  | repo_file ↦ not (is_given ev.repo && (is_given ev.commit_sha && is_given ev.path))
  | _ ↦ false
]

-- INSERT … ON CONFLICT DO NOTHING, row by row.
unfoldable pub add_contributors :
    String → String → String → List ContributorInput → List ContributorRow → List ContributorRow
add_contributors team proj uuid [] rows = rows
add_contributors team proj uuid (c ∷ cs) rows = add_contributors team proj uuid cs (
    if any (same_contributor uuid c.principal_id) rows
    then rows
    else contributor_row team proj uuid c ∷ rows)

abbrev pub seen_prints : MergeInput → ConceptStore → List (List ℕ)
seen_prints input db =
    map (λ (e : EvidenceRow). evidence_fingerprint (as_input e))
      (filter (evidence_of input.team_id input.project_id input.target_id) db.evidence)

abbrev pub merge_report : MergeInput → List EvidenceInput → ℕ → MergeResult
merge_report input inserted contributors = record {
  uuid = input.target_id;
  new_evidence_count = length inserted;
  new_contributor_count = contributors;
  body_updated = true;
  last_confirmed_updated = refreshes input.relationship;
  status_disputed = is_disputed (effective_status input.relationship input.result_status);
}

-- Steps 6 and 7, on the store with the updated page.
unfoldable pub append_evidence :
    MergeInput → ConceptStore → ConceptStore × Result ConceptError MergeResult
unfolding without_duplicates add_contributors
append_evidence input db =
    let fresh = without_duplicates (seen_prints input db) input.new_evidence in
    if any is_incomplete fresh
    then (db, err incomplete_repo_file)
    else (let rows =
          add_contributors input.team_id input.project_id input.target_id
            (trusted input.new_contributors) db.contributors in
        (
          record db {
            evidence =
                map (evidence_row input.team_id input.project_id input.target_id) fresh
                ++ db.evidence;
            contributors = rows;
          },
          ok (merge_report input fresh (length rows - length db.contributors)),
        ))

unfoldable pub merge_in :
    ℕ → MergeInput → ConceptStore → ConceptStore × Result ConceptError MergeResult
unfolding append_evidence
merge_in now input db =
    let target = concept_in_scope input.team_id input.project_id input.target_id in
    elim (first (filter target db.concepts)) [
      | none ↦ (db, err target_not_found)
      | some seen ↦
          append_evidence input
            (record db { concepts = update_where target (merged_row now input seen) db.concepts })
    ]

unfoldable pub merge_into_concept :
    ℕ → MergeInput → ConceptStore → ConceptStore × Result ConceptError MergeResult
unfolding merge_in
merge_into_concept now input db = transaction (merge_in now input) db
