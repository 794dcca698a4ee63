-- ===== src/Concepts/Merge/Dedup.antt =====
-- About the deduplication of evidence in `mergeIntoConcept`.
use teamem_server.Prelude.{
  ℕ, ◌-◌, ◌≡◌, refl, ap, inl, inr, Bool, true, some, List, [], ◌∷◌, ◌++◌, map, ok, err-ne-ok,
  transaction-ok, transaction-of-ok, arith, str_eq_self, any, length, first, Option-cases,
  Bool-cases, All,
}
use teamem_server.Table.{filter, update_where}
use teamem_server.Table.Unique.{first-update}
use teamem_server.Concepts.Rows.{ConceptRow, ConceptStore, EvidenceInput, EvidenceRow}
use teamem_server.Concepts.Fingerprint.{evidence_fingerprint}
use teamem_server.Concepts.Write.{evidence_row}
use teamem_server.Concepts.Merge.{
  MergeInput, MergeResult, merge_report, merged_row, append_evidence, merge_in, merge_into_concept,
  without_duplicates, seen_prints, is_incomplete, codes_eq, evidence_of, as_input,
}
use teamem_server.Concepts.Merge.Page.{target_of, merged-concepts}

codes_eq_self : (cs : List ℕ) → codes_eq cs cs ≡ true
unfolding codes_eq
codes_eq_self [] = refl
codes_eq_self (c ∷ cs) = ground (arith, codes_eq_self cs)

pub any-append_right {ℓ} :
    {A : Type ℓ} (p : A → Bool) (xs ys : List A) → any p ys ≡ true → any p (xs ++ ys) ≡ true
any-append_right p [] ys h = h
any-append_right p (x ∷ xs) ys h = ground (arith, any-append_right p xs ys)

abbrev has_print : List ℕ → List (List ℕ) → Bool
has_print print seen = any (codes_eq print) seen

pub any-append {ℓ} :
    {A : Type ℓ} (p : A → Bool) (xs ys : List A) → any p xs ≡ true → any p (xs ++ ys) ≡ true
any-append p [] ys h = cc
any-append p (x ∷ xs) ys h = ground (arith, any-append p xs ys)

abbrev prints : List EvidenceInput → List (List ℕ)
prints = map evidence_fingerprint

-- Each item has its print among those that were seen and those that the filter let through.
All-printed :
    (seen : List (List ℕ)) (evs : List EvidenceInput) (all : List (List ℕ))
    → ((print : List ℕ) → has_print print seen ≡ true → has_print print all ≡ true)
    → ((print : List ℕ)
        → has_print print (prints (without_duplicates seen evs)) ≡ true
        → has_print print all ≡ true)
    → All (λ ev. has_print (evidence_fingerprint ev) all ≡ true) evs
unfolding without_duplicates
All-printed seen [] all old new = tt
All-printed seen (ev ∷ evs) all old new =
    elim (Bool-cases (has_print (evidence_fingerprint ev) seen)) [
      | inl known ↦ (
        old (evidence_fingerprint ev) known,
        All-printed seen evs all old (λ print h. new print (rw known h)),
      )
      | inr fresh ↦
          (let new_at : (print : List ℕ)
                → has_print print (
                    evidence_fingerprint ev
                    ∷ prints (without_duplicates (evidence_fingerprint ev ∷ seen) evs))
                  ≡ true
                → has_print print all ≡ true =
              λ print h. new print (rw fresh h) in
            (
              new_at (evidence_fingerprint ev) (rw (codes_eq_self (evidence_fingerprint ev))),
              All-printed (evidence_fingerprint ev ∷ seen) evs all
                  (λ print h. elim (Bool-cases (codes_eq print (evidence_fingerprint ev))) [
                    | inl same ↦ new_at print (rw same)
                    | inr other ↦ old print (rw other at h)
                  ])
                  (λ print h. elim (Bool-cases (codes_eq print (evidence_fingerprint ev))) [
                    | inl same ↦ new_at print (rw same)
                    | inr other ↦ new_at print (rw other h)
                  ]),
            ))
    ]

none_left :
    (seen : List (List ℕ)) (evs : List EvidenceInput)
    → All (λ ev. has_print (evidence_fingerprint ev) seen ≡ true) evs
    → without_duplicates seen evs ≡ []
unfolding without_duplicates
none_left seen [] h = refl
none_left seen (ev ∷ evs) h = rw (h.0) (none_left seen evs h.1)

-- What was filtered by the prints that were seen has nothing new for any larger collection that
-- holds the prints of what was let through.
filtered_again :
    (seen : List (List ℕ)) (evs : List EvidenceInput)
    → without_duplicates (prints (without_duplicates seen evs) ++ seen) evs ≡ []
filtered_again seen evs = none_left (prints (without_duplicates seen evs) ++ seen) evs (
    All-printed seen evs (prints (without_duplicates seen evs) ++ seen)
      (λ print h. any-append_right (codes_eq print) (prints (without_duplicates seen evs)) seen h)
      (λ print h. any-append (codes_eq print) (prints (without_duplicates seen evs)) seen h))

abbrev rows_of : MergeInput → List EvidenceInput → List EvidenceRow
rows_of input = map (evidence_row input.team_id input.project_id input.target_id)

abbrev prints_in : MergeInput → List EvidenceRow → List (List ℕ)
prints_in input es =
    map (λ (e : EvidenceRow). evidence_fingerprint (as_input e))
      (filter (evidence_of input.team_id input.project_id input.target_id) es)

prints_in-append :
    (input : MergeInput) (evs : List EvidenceInput) (es : List EvidenceRow)
    → prints_in input (rows_of input evs ++ es) ≡ prints evs ++ prints_in input es
unfolding filter
prints_in-append input [] es = refl
prints_in-append input (ev ∷ evs) es = rw (str_eq_self input.team_id) (
    rw (str_eq_self input.project_id) (
      rw (str_eq_self input.target_id)
        (ap (λ l. evidence_fingerprint ev ∷ l) (prints_in-append input evs es))))

-- What a call that returns has added to the evidence.
appended :
    (input : MergeInput) (db : ConceptStore) (report : MergeResult)
    → (append_evidence input db).1 ≡ ok report
    → (append_evidence input db).0.evidence
      ≡ rows_of input (without_duplicates (seen_prints input db) input.new_evidence) ++ db.evidence
unfolding append_evidence
appended input db report h =
    elim (Bool-cases
      (any is_incomplete (without_duplicates (seen_prints input db) input.new_evidence))) [
        | inl bad ↦ absurd (err-ne-ok (rw bad at h))
        | inr good ↦ rw good
      ]

pub merged-evidence :
    (now : ℕ) (input : MergeInput) (db : ConceptStore) (report : MergeResult)
    → (merge_into_concept now input db).1 ≡ ok report
    → (merge_into_concept now input db).0.evidence
      ≡ rows_of input (without_duplicates (seen_prints input db) input.new_evidence) ++ db.evidence
unfolding merge_into_concept
merged-evidence now input db report h =
    let same = transaction-ok (merge_in now input) db report h in
    elim (Option-cases (first (filter (target_of input) db.concepts))) [
      | inl missing ↦ absurd (err-ne-ok (rw (missing, merge_in) at (rw same at h)))
      | inr (seen, found) ↦ rw same (
          rw (found, merge_in)
            (appended input
              (record db {
                concepts = update_where (target_of input) (merged_row now input seen) db.concepts;
              })
              report (rw (found, merge_in) at (rw same at h))))
    ]

-- The second time, nothing is left to append.
append_again :
    (input : MergeInput) (db : ConceptStore)
    → without_duplicates (seen_prints input db) input.new_evidence ≡ []
    → (report : MergeResult) × ((append_evidence input db).1 ≡ ok report)
      × (report.new_evidence_count ≡ 0)
      × ((append_evidence input db).0.evidence ≡ db.evidence)
unfolding append_evidence
append_again input db none_new = (
  merge_report input [] (length (append_evidence input db).0.contributors - length db.contributors),
  rw none_new refl,
  refl,
  rw none_new refl,
)

second_merge :
    (later : ℕ) (input : MergeInput) (db : ConceptStore) (seen : ConceptRow)
    → first (filter (target_of input) db.concepts) ≡ some seen
    → without_duplicates (seen_prints input db) input.new_evidence ≡ []
    → (second : MergeResult) × ((merge_into_concept later input db).1 ≡ ok second)
      × (second.new_evidence_count ≡ 0)
      × ((merge_into_concept later input db).0.evidence ≡ db.evidence)
unfolding merge_into_concept
second_merge later input db seen found none_new =
    let (second, returned, count, kept) =
      append_again input
        (record db {
          concepts = update_where (target_of input) (merged_row later input seen) db.concepts;
        })
        none_new in
    let went : (merge_in later input db).1 ≡ ok second = rw (found, merge_in) returned in
    let same = transaction-of-ok (merge_in later input) db second went in
    (second, rw same went, count, rw same (rw (found, merge_in) kept))

-- If a merge succeeds and is made again with the same input on the store that it left, at any time,
-- then it succeeds again, adds no evidence, and leaves the evidence as it was.
pub merge_into_concept-twice :
    (now later : ℕ) (input : MergeInput) (db : ConceptStore) (report : MergeResult)
    → (merge_into_concept now input db).1 ≡ ok report
    → (second : MergeResult) × ((merge_into_concept later input
          (merge_into_concept now input db).0).1
        ≡ ok second)
      × (second.new_evidence_count ≡ 0)
      × ((merge_into_concept later input (merge_into_concept now input db).0).0.evidence
          ≡ (merge_into_concept now input db).0.evidence)
merge_into_concept-twice now later input db report h =
    let (seen, found, updated) = merged-concepts now input db report h in
    let after : ConceptStore = (merge_into_concept now input db).0 in
    let again : first (filter (target_of input) after.concepts)
        ≡ some (merged_row now input seen seen) =
      rw updated (
        first-update (target_of input) (merged_row now input seen) (λ c. refl) db.concepts seen
          found) in
    let none_new : without_duplicates (seen_prints input after) input.new_evidence ≡ [] =
      rw (merged-evidence now input db report h) (
        rw
          (prints_in-append input (without_duplicates (seen_prints input db) input.new_evidence)
            db.evidence)
          (filtered_again (seen_prints input db) input.new_evidence)) in
    second_merge later input after (merged_row now input seen seen) again none_new
