-- ===== src/Concepts/Tests.antt =====
-- Runs of the concept repository, and the theorems at them.
use teamem_server.Prelude.{◌≡◌, refl, true, false, none, some, [], ◌∷◌, ok, err, arith, ◌/◌}
use teamem_server.Table.{filter}
use teamem_server.Concepts.Rows.{
  service, active, disputed, high, commit, repo_file, ConceptRow, EvidenceInput, ConceptStore,
}
use teamem_server.Concepts.Fingerprint.{or_empty, evidence_fingerprint}
use teamem_server.Concepts.Fingerprint.Injective.{evidence_fingerprint-injective}
use teamem_server.Concepts.Write.{incomplete_repo_file}
use teamem_server.Concepts.Merge.{contradicts, MergeInput, MergeResult, merge_into_concept}
use teamem_server.Concepts.Merge.Page.{target_of, merge_into_concept-page}
use teamem_server.Concepts.Merge.Dedup.{merge_into_concept-twice}

abbrev page : ConceptRow
page = record {
  uuid = "c1";
  team_id = "t1";
  project_id = "p1";
  schema_version = 1;
  type = service;
  status = active;
  confidence = high;
  title = "Queue";
  body = "A queue.";
  tags = "queue" ∷ [];
  first_seen = 1000;
  last_confirmed = 1000;
  supersedes_uuid = none;
  embedding = none;
  updated_at = 1000;
}

abbrev reference : EvidenceInput
reference = record {
  kind = commit;
  ref = some "https://x/1";
  repo = none;
  commit_sha = none;
  path = none;
  at = 2000;
}

abbrev store : ConceptStore
store = record { concepts = page ∷ []; paths = []; evidence = []; contributors = [] }

abbrev contradiction : MergeInput
contradiction = record {
  team_id = "t1";
  project_id = "p1";
  target_id = "c1";
  relationship = contradicts;
  merged_title = "Queue";
  merged_body = "Two queues.";
  result_status = disputed;
  new_evidence = reference ∷ reference ∷ [];
  new_contributors = [];
  tags = none;
  new_embedding = none;
}

abbrev report : MergeResult
report = record {
  uuid = "c1";
  new_evidence_count = 1;
  new_contributor_count = 0;
  body_updated = true;
  last_confirmed_updated = false;
  status_disputed = true;
}

merge_into_concept-page_example :
    (seen : ConceptRow) × (after : ConceptRow) × (filter (target_of contradiction) store.concepts
      ≡ seen ∷ [])
    × (filter (target_of contradiction) (merge_into_concept 9 contradiction store).0.concepts
        ≡ after ∷ [])
    × (after.title ≡ "Queue")
    × (after.body ≡ "Two queues.")
    × (after.type ≡ seen.type)
    × (after.confidence ≡ seen.confidence)
    × (after.first_seen ≡ seen.first_seen)
    × (after.status ≡ disputed)
    × (after.last_confirmed ≡ seen.last_confirmed)
    × (after.tags ≡ seen.tags)
unfolding filter merge_into_concept evidence_fingerprint
merge_into_concept-page_example =
    merge_into_concept-page 9 contradiction store report (omega arith) refl

-- A file without its commit.
abbrev misplaced : MergeInput
misplaced = record contradiction {
  new_evidence =
      reference ∷ record reference { kind = repo_file; repo = some "o/r"; path = some "a.ts" } ∷ [];
}

misplaced_test : merge_into_concept 9 misplaced store ≡ (store, err incomplete_repo_file)
unfolding filter merge_into_concept evidence_fingerprint
misplaced_test = refl

merge_into_concept-twice_example :
    (second : MergeResult) × ((merge_into_concept 10 contradiction
        (merge_into_concept 9 contradiction store).0).1
      ≡ ok second)
    × (second.new_evidence_count ≡ 0)
    × ((merge_into_concept 10 contradiction (merge_into_concept 9 contradiction store).0).0.evidence
        ≡ (merge_into_concept 9 contradiction store).0.evidence)
unfolding merge_into_concept filter evidence_fingerprint
merge_into_concept-twice_example = merge_into_concept-twice 9 10 contradiction store report refl

evidence_fingerprint-injective_example :
    (commit ≡ commit)
    × (or_empty (some "https://x/1") ≡ or_empty (some "https://x/1"))
    × (or_empty none ≡ or_empty none)
    × (or_empty none ≡ or_empty none)
    × (or_empty none ≡ or_empty none)
    × (2000 / 1000 ≡ 2500 / 1000)
unfolding evidence_fingerprint
evidence_fingerprint-injective_example =
    evidence_fingerprint-injective reference (record reference { at = 2500 }) refl
