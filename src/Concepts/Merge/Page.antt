-- ===== src/Concepts/Merge/Page.antt =====
-- About the page that `mergeIntoConcept` targets.
use teamem_server.Prelude.{
  ℕ, ◌≤◌, ◌≡◌, refl, inl, inr, Bool, Option, none, some, String, List, [], ◌∷◌, ok, err, err-ne-ok,
  transaction-err, transaction-ok, any, length, first, Option-cases, Bool-cases, if◌then◌else◌,
}
use teamem_server.Table.{filter, update_where}
use teamem_server.Table.Unique.{filter_unique, filter-update_unique}
use teamem_server.Concepts.Rows.{
  ConceptStatus, disputed, ConceptRow, ConceptStore, concept_in_scope,
}
use teamem_server.Concepts.Write.{ConceptError}
use teamem_server.Concepts.Merge.{
  MergeRelationship, confirms, extends, contradicts, MergeInput, MergeResult, effective_status,
  refreshes, kept_or, merged_row, append_evidence, merge_in, merge_into_concept, without_duplicates,
  seen_prints, is_incomplete,
}

abbrev pub target_of : MergeInput → ConceptRow → Bool
target_of input = concept_in_scope input.team_id input.project_id input.target_id

append_evidence-concepts :
    (input : MergeInput) (db : ConceptStore) → (append_evidence input db).0.concepts ≡ db.concepts
unfolding append_evidence
append_evidence-concepts input db =
    elim (Bool-cases
      (any is_incomplete (without_duplicates (seen_prints input db) input.new_evidence))) [
        | inl bad ↦ rw bad
        | inr good ↦ rw good
      ]

-- A call that returns has found its target, and has updated it.
pub merged-concepts :
    (now : ℕ) (input : MergeInput) (db : ConceptStore) (report : MergeResult)
    → (merge_into_concept now input db).1 ≡ ok report
    → (seen : ConceptRow) × (first (filter (target_of input) db.concepts) ≡ some seen)
      × ((merge_into_concept now input db).0.concepts
          ≡ update_where (target_of input) (merged_row now input seen) db.concepts)
unfolding merge_into_concept
merged-concepts now input db report h =
    let same = transaction-ok (merge_in now input) db report h in
    elim (Option-cases (first (filter (target_of input) db.concepts))) [
      | inl missing ↦ absurd (err-ne-ok (rw (missing, merge_in) at (rw same at h)))
      | inr (seen, found) ↦ (
        seen,
        found,
        rw same (
            rw (found, merge_in)
              (append_evidence-concepts input (record db {
                concepts = update_where (target_of input) (merged_row now input seen) db.concepts;
              }))),
      )
    ]

-- What a merge makes of a page, by its relationship.
abbrev pub IsStatusAfter : MergeRelationship → ConceptStatus → ConceptStatus → Type 0
IsStatusAfter confirms decided status = status ≡ decided
IsStatusAfter extends decided status = status ≡ decided
IsStatusAfter contradicts decided status = status ≡ disputed

abbrev pub IsConfirmedAt : MergeRelationship → ℕ → ℕ → ℕ → Type 0
IsConfirmedAt confirms now before time = time ≡ now
IsConfirmedAt extends now before time = time ≡ before
IsConfirmedAt contradicts now before time = time ≡ before

abbrev pub IsTaggedWith : Option (List String) → List String → List String → Type 0
IsTaggedWith none before tags = tags ≡ before
IsTaggedWith (some given) before tags = tags ≡ given

effective_status-IsStatusAfter :
    (r : MergeRelationship) (decided : ConceptStatus)
    → IsStatusAfter r decided (effective_status r decided)
effective_status-IsStatusAfter confirms decided = refl
effective_status-IsStatusAfter extends decided = refl
effective_status-IsStatusAfter contradicts decided = refl

refreshes-IsConfirmedAt :
    (r : MergeRelationship) (now before : ℕ)
    → IsConfirmedAt r now before (if refreshes r then now else before)
refreshes-IsConfirmedAt confirms now before = refl
refreshes-IsConfirmedAt extends now before = refl
refreshes-IsConfirmedAt contradicts now before = refl

kept_or-IsTaggedWith :
    (given : Option (List String)) (before : List String)
    → IsTaggedWith given before (kept_or given before)
kept_or-IsTaggedWith none before = refl
kept_or-IsTaggedWith (some given) before = refl

-- If at most one page has the target's id and scope and the merge succeeds, then the target was
-- there and it is still the only one, with the merged title and body, and: its type, confidence and
-- first-seen time are kept; a contradiction makes it disputed and another merge gives it the
-- decided status; its last confirmation is now for 'confirms' and as before for the others; its
-- tags are those that are given, or as before where none are.
pub merge_into_concept-page :
    (now : ℕ) (input : MergeInput) (db : ConceptStore) (report : MergeResult)
    → length (filter (target_of input) db.concepts) ≤ 1
    → (merge_into_concept now input db).1 ≡ ok report
    → (seen : ConceptRow) × (page : ConceptRow) × (filter (target_of input) db.concepts ≡ seen ∷ [])
      × (filter (target_of input) (merge_into_concept now input db).0.concepts ≡ page ∷ [])
      × (page.title ≡ input.merged_title)
      × (page.body ≡ input.merged_body)
      × (page.type ≡ seen.type)
      × (page.confidence ≡ seen.confidence)
      × (page.first_seen ≡ seen.first_seen)
      × IsStatusAfter input.relationship input.result_status page.status
      × IsConfirmedAt input.relationship now seen.last_confirmed page.last_confirmed
      × IsTaggedWith input.tags seen.tags page.tags
merge_into_concept-page now input db report one h =
    let (seen, found, updated) = merged-concepts now input db report h in
    (
      seen,
      merged_row now input seen seen,
      filter_unique (target_of input) (target_of input) (λ c k. k) db.concepts seen one found,
      rw updated (
          filter-update_unique (target_of input) (target_of input) (merged_row now input seen)
            (λ c k. k) (λ c. refl) db.concepts seen one found),
      refl,
      refl,
      refl,
      refl,
      refl,
      effective_status-IsStatusAfter input.relationship input.result_status,
      refreshes-IsConfirmedAt input.relationship now seen.last_confirmed,
      kept_or-IsTaggedWith input.tags seen.tags,
    )

-- A merge that throws is rolled back.
pub merge_into_concept-err :
    (now : ℕ) (input : MergeInput) (db : ConceptStore) (e : ConceptError)
    → (merge_into_concept now input db).1 ≡ err e
    → (merge_into_concept now input db).0 ≡ db
unfolding merge_into_concept
merge_into_concept-err now input db e h = transaction-err (merge_in now input) db e h
