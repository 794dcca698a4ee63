-- ===== src/Compile/Candidates.antt =====
-- `enrichF2Candidates` of compiler/f1/compile-job.ts.
use Prim.Native.String.{◌++◌}
use teamem_server.Prelude.{
  Bool, ◌&&◌, Option, none, some, String, List, [], ◌∷◌, map, str_eq, first, if◌then◌else◌,
}
use teamem_server.Table.{filter}
use teamem_server.Concepts.Rows.{
  ConceptRow, PathRow, EvidenceKind, commit, pr, issue, pr_comment, repo_file, mcp_write, manual,
  EvidenceRow, ConceptStore, concept_in_scope,
}
use teamem_server.Concepts.Merge.{evidence_of}
use teamem_server.Compile.Services.{Candidate}

abbrev or_text : String → Option String → String
or_text fallback none = fallback
or_text fallback (some s) = s

abbrev kind_text : EvidenceKind → String
kind_text commit = "commit"
kind_text pr = "pr"
kind_text issue = "issue"
kind_text pr_comment = "pr_comment"
kind_text repo_file = "repo_file"
kind_text mcp_write = "mcp_write"
kind_text manual = "manual"

abbrev joined : List String → String
joined [] = ""
joined (s ∷ ss) = s ++ joined ss

abbrev reference_summary : EvidenceRow → String
reference_summary e = joined (kind_text e.kind ∷ ": " ∷ or_text "(no ref)" e.ref ∷ [])

abbrev summary : EvidenceRow → String
summary e = elim e.kind [
  | repo_file ↦ joined (
      "repo_file: "
      ∷ or_text "?" e.repo
      ∷ "@"
      ∷ or_text "?" e.commit_sha
      ∷ "/"
      ∷ or_text "?" e.path
      ∷ [])
  | _ ↦ reference_summary e
]

abbrev current_path_of : String → String → String → PathRow → Bool
current_path_of team proj uuid p =
    str_eq p.team_id team
    && (str_eq p.project_id proj && (p.is_current && str_eq p.concept_uuid uuid))

-- `new Map(rows)` holds the last of the rows with the key.
unfoldable pub last_path : String → List PathRow → String
last_path found [] = found
last_path found (p ∷ ps) = last_path p.path ps

unfoldable pub candidate_of : String → String → ConceptStore → ConceptRow → Candidate
unfolding filter last_path
candidate_of team proj db c = record {
  uuid = c.uuid;
  type = c.type;
  status = c.status;
  title = c.title;
  body = c.body;
  path = last_path "" (filter (current_path_of team proj c.uuid) db.paths);
  tags = c.tags;
  evidence_summary = map summary (filter (evidence_of team proj c.uuid) db.evidence);
}

unfoldable pub enrich_candidates : String → String → ConceptStore → List String → List Candidate
unfolding filter candidate_of
enrich_candidates team proj db [] = []
enrich_candidates team proj db (uuid ∷ uuids) =
    let rest = enrich_candidates team proj db uuids in
    elim (first (filter (concept_in_scope team proj uuid) db.concepts)) [
      | none ↦ rest
      | some c ↦ candidate_of team proj db c ∷ rest
    ]

-- `enrichedCandidates.find((c) => c.uuid === targetConceptId)?.tags ?? []`
unfoldable pub tags_of : String → List Candidate → List String
tags_of target [] = []
tags_of target (c ∷ cs) =
    let later = tags_of target cs in if str_eq c.uuid target then c.tags else later
