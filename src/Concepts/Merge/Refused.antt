-- ===== src/Concepts/Merge/Refused.antt =====
-- About the merges that `mergeIntoConcept` refuses.
use teamem_server.Prelude.{
  ℕ, ◌==◌, ◌≡◌, ◌⊎◌, Bool, true, false, not, ◌&&◌, ◌||◌, none, some, List, ok, err, any, length,
  first,
}
use teamem_server.Table.{filter}
use teamem_server.Concepts.Rows.{
  EvidenceKind, commit, pr, issue, pr_comment, repo_file, mcp_write, manual, ConceptRow,
  ConceptStore, EvidenceInput,
}
use teamem_server.Concepts.Fingerprint.{or_empty, evidence_fingerprint}
use teamem_server.Concepts.Write.{target_not_found, incomplete_repo_file}
use teamem_server.Concepts.Merge.{
  MergeInput, MergeResult, codes_eq, seen_prints, merge_into_concept,
}
use teamem_server.Concepts.Merge.Page.{target_of}

abbrev is_file : EvidenceKind → Bool
is_file repo_file = true
is_file commit = false
is_file pr = false
is_file issue = false
is_file pr_comment = false
is_file mcp_write = false
is_file manual = false

abbrev is_blank : List ℕ → Bool
is_blank s = length s == 0

abbrev is_unplaced : EvidenceKind → List ℕ → List ℕ → List ℕ → Bool
is_unplaced kind repo sha path = is_file kind && (is_blank repo || (is_blank sha || is_blank path))

-- A file without its repository, its commit or its path, where an empty one counts as absent.
abbrev pub lacks_place : EvidenceInput → Bool
lacks_place ev = is_unplaced ev.kind (or_empty ev.repo) (or_empty ev.commit_sha) (or_empty ev.path)

-- Evidence that the page of the merge has already.
abbrev pub is_known : List (List ℕ) → EvidenceInput → Bool
is_known seen ev = any (codes_eq (evidence_fingerprint ev)) seen

abbrev pub has_unplaced : MergeInput → ConceptStore → Bool
has_unplaced input db =
    any (λ ev. lacks_place ev && not (is_known (seen_prints input db) ev)) input.new_evidence

-- The outcomes of a merge.
abbrev pub IsRefusedOrDone : ℕ → MergeInput → ConceptStore → Type 0
IsRefusedOrDone now input db =
    ((first (filter (target_of input) db.concepts) ≡ none)
      × (merge_into_concept now input db ≡ (db, err target_not_found)))
    ⊎ ((seen : ConceptRow) × (first (filter (target_of input) db.concepts) ≡ some seen)
        × (((has_unplaced input db ≡ true)
              × (merge_into_concept now input db ≡ (db, err incomplete_repo_file)))
            ⊎ ((has_unplaced input db ≡ false)
                × ((report : MergeResult) × ((merge_into_concept now input db).1 ≡ ok report)))))
