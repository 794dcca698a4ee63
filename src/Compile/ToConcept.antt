-- ===== src/Compile/ToConcept.antt =====
-- compiler/f1/to-concept.ts and the extract branch of compiler/f1/output.ts.
pub mod Accepted
use teamem_server.Prelude.{
  ℕ, Bool, false, not, ◌&&◌, Option, none, some, String, List, [], ◌∷◌, ◌++◌, if◌then◌else◌, str_eq,
}
use teamem_server.Concepts.Rows.{
  ConceptType, active, Confidence, EvidenceKind, commit, pr, issue, pr_comment, repo_file,
  credential_bound, EvidenceInput, ContributorInput, CreateConceptInput,
}
use teamem_server.Concepts.Contract.{is_given, is_commit_sha}
use teamem_server.Compile.Events.{
  SourceKind, cli_init, github_commit, github_pr, github_issue, github_pr_comment, mcp_write,
  external_event, EventRow, text_at,
}

-- `F1ExtractOutput`
pub record Extract : Type 0 where
  pub type : ConceptType
  pub title : String
  pub body : String
  pub path : String
  pub tags : List String
  pub confidence : Confidence

abbrev pub referring : EvidenceKind → Option String → ℕ → EvidenceInput
referring kind ref at = record {
  kind = kind;
  ref = ref;
  repo = none;
  commit_sha = none;
  path = none;
  at = at;
}

-- Evidence of a kind whose reference is the event's URL; an empty URL counts as none.
abbrev pub by_url : EvidenceKind → EventRow → Option (List EvidenceInput)
by_url kind e = if is_given e.url then some (referring kind e.url e.occurred_at ∷ []) else none

-- The regular expression of `buildEvidence`, for a value that is there.
abbrev pub has_sha : Option String → Bool
has_sha none = false
has_sha (some s) = is_commit_sha s

abbrev pub file_evidence :
    Option String → Option String → Option String → ℕ → Option (List EvidenceInput)
file_evidence repo sha path at =
    if not (is_given repo && (is_given sha && is_given path))
    then none
    else if not (has_sha sha)
    then none
    else some (
        record { kind = repo_file; ref = none; repo = repo; commit_sha = sha; path = path; at = at }
        ∷ [])

-- `buildEvidence`
abbrev pub evidence_for : SourceKind → EventRow → Option (List EvidenceInput)
evidence_for cli_init e =
    file_evidence (text_at "repo" e.payload) (text_at "commitSha" e.payload)
      (text_at "path" e.payload) e.occurred_at
evidence_for github_commit e = by_url commit e
evidence_for github_pr e = by_url pr e
evidence_for github_issue e = by_url issue e
evidence_for github_pr_comment e = by_url pr_comment e
evidence_for mcp_write e = some (referring EvidenceKind.mcp_write (some e.id) e.occurred_at ∷ [])
evidence_for external_event e = none

unfoldable pub build_evidence : EventRow → Option (List EvidenceInput)
unfolding text_at
build_evidence e = evidence_for e.kind e

abbrev pub actor_contributor : EventRow → List ContributorInput
actor_contributor e = elim e.actor_principal_id [
  | none ↦ []
  | some p ↦
      if is_given (some p)
      then record { principal_id = p; provenance = e.actor_provenance } ∷ []
      else []
]

abbrev pub is_principal : String → Option String → Bool
is_principal p none = false
is_principal p (some q) = str_eq p q

abbrev pub ingesting_contributor : EventRow → List ContributorInput
ingesting_contributor e = elim e.ingested_by_principal_id [
  | none ↦ []
  | some p ↦
      if is_given (some p) && not (is_principal p e.actor_principal_id)
      then record { principal_id = p; provenance = credential_bound } ∷ []
      else []
]

-- `buildContributors`
unfoldable pub build_contributors : EventRow → List ContributorInput
build_contributors e = actor_contributor e ++ ingesting_contributor e

-- `toConcept`. No code reads the uuid that it draws; an empty list of contributors is left out of the
-- input, which the repository reads as an empty list.
unfoldable pub to_concept : Extract → EventRow → Option CreateConceptInput
unfolding build_evidence build_contributors
to_concept x e = elim (build_evidence e) [
  | none ↦ none
  | some [] ↦ none
  | some (ev ∷ evs) ↦ some (record {
    team_id = e.team_id;
    project_id = e.project_id;
    schema_version = 1;
    type = x.type;
    status = active;
    confidence = x.confidence;
    title = x.title;
    body = x.body;
    tags = x.tags;
    first_seen = e.occurred_at;
    last_confirmed = e.occurred_at;
    supersedes_uuid = none;
    path = x.path;
    evidence = ev ∷ evs;
    contributors = build_contributors e;
    embedding = none;
  })
]
