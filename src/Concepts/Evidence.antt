-- ===== src/Concepts/Evidence.antt =====
-- About the evidence of pages under `createConcept` and `mergeIntoConcept`.
use teamem_server.Prelude.{
  ℕ, ◌≡◌, refl, sym, subst, inl, inr, Bool, true, ◌&&◌, String, List, ◌∷◌, ◌++◌, map, ok, err-ne-ok,
  Result-cases, List-cases, Bool-cases, transaction, transaction-ok, transaction-err, str_eq,
  str_eq_self, any, All, All-map,
}
use teamem_server.Table.{All-update_where}
use teamem_server.Concepts.Rows.{
  ConceptRow, PathRow, EvidenceRow, ContributorInput, ConceptStore, CreateConceptInput,
}
use teamem_server.Concepts.Contract.{is_concept_path, is_evidence_list}
use teamem_server.Concepts.Write.{
  trusted, new_concept, evidence_row, repeats_principal, same_contributor, insert_contributors,
  create_in, create_concept,
}
use teamem_server.Concepts.Merge.{MergeInput, merged_row, merge_into_concept}
use teamem_server.Concepts.Merge.Page.{target_of, merged-concepts, merge_into_concept-err}
use teamem_server.Concepts.Merge.Dedup.{merged-evidence, any-append_right}

abbrev pub is_about : String → EvidenceRow → Bool
is_about uuid e = str_eq e.concept_uuid uuid

abbrev pub Carry : List ConceptRow → List EvidenceRow → Type 0
Carry cs rows = All (λ (c : ConceptRow). any (is_about c.uuid) rows ≡ true) cs

-- Each page of the store has a row of evidence.
abbrev pub HasEvidence : ConceptStore → Type 0
HasEvidence db = Carry db.concepts db.evidence

-- More evidence takes none away.
more_evidence :
    (more rows : List EvidenceRow) (cs : List ConceptRow)
    → All (λ (c : ConceptRow). any (is_about c.uuid) rows ≡ true) cs
    → All (λ (c : ConceptRow). any (is_about c.uuid) (more ++ rows) ≡ true) cs
more_evidence more rows cs h =
    All-map (λ (c : ConceptRow). any (is_about c.uuid) rows ≡ true)
      (λ (c : ConceptRow). any (is_about c.uuid) (more ++ rows) ≡ true)
      (λ c k. any-append_right (is_about c.uuid) more rows k) cs h

-- What a creation that returns makes of the pages and their evidence.
created :
    (uuid : String) (now : ℕ) (input : CreateConceptInput) (db : ConceptStore) (u : String)
    → (create_in uuid now input db).1 ≡ ok u
    → ((create_in uuid now input db).0.concepts ≡ new_concept uuid now input ∷ db.concepts)
      × ((create_in uuid now input db).0.evidence
          ≡ map (evidence_row input.team_id input.project_id uuid) input.evidence ++ db.evidence)
unfolding create_in insert_contributors
created uuid now input db u h =
    elim (Bool-cases (
      any (λ (p : PathRow). str_eq p.project_id input.project_id && str_eq p.path input.path)
        db.paths)) [
          | inl taken ↦ absurd (err-ne-ok (rw taken at h))
          | inr free ↦ elim (Bool-cases (repeats_principal (trusted input.contributors))) [
            | inl repeated ↦ absurd (err-ne-ok (rw (free, repeated) at h))
            | inr single ↦
                elim (Bool-cases (
                  any
                    (λ (c : ContributorInput).
                      any (same_contributor uuid c.principal_id) db.contributors)
                    (trusted input.contributors))) [
                      | inl there ↦ absurd (err-ne-ok (rw (free, single, there) at h))
                      | inr fresh ↦ (rw (free, single, fresh) refl, rw (free, single, fresh) refl)
                    ]
          ]
        ]

module _ (is_url : String → Bool) where
  pub create_concept-HasEvidence :
      (uuid : String) (now : ℕ) (input : CreateConceptInput) (db : ConceptStore)
      → HasEvidence db
      → HasEvidence (create_concept is_url uuid now input db).0
  unfolding create_concept
  create_concept-HasEvidence uuid now input db h = elim (Bool-cases (is_concept_path input.path)) [
    | inr bad ↦ rw bad h
    | inl good ↦ elim (List-cases input.evidence) [
      | inl empty ↦ rw (good, empty, is_evidence_list) h
      | inr (ev, evs, given) ↦ elim (Bool-cases (is_evidence_list is_url input.evidence)) [
        | inr invalid ↦ rw (good, invalid) h
        | inl valid ↦
            rw (good, valid)
              (elim (Result-cases (transaction (create_in uuid now input) db).1) [
                | inr (e, thrown) ↦ rw (transaction-err (create_in uuid now input) db e thrown) h
                | inl (u, returned) ↦
                    let same = transaction-ok (create_in uuid now input) db u returned in
                    let (pages, evidence) = created uuid now input db u (rw same at returned) in
                    let more =
                      map (evidence_row input.team_id input.project_id uuid) input.evidence in
                    rw same (
                      subst (Carry (create_in uuid now input db).0.concepts) (sym evidence) (
                        subst (λ cs. Carry cs (more ++ db.evidence)) (sym pages)
                          (
                            rw given (rw (str_eq_self uuid) refl),
                            more_evidence more db.evidence db.concepts h,
                          )))
              ])
      ]
    ]
  ]

pub merge_into_concept-HasEvidence :
    (now : ℕ) (input : MergeInput) (db : ConceptStore)
    → HasEvidence db
    → HasEvidence (merge_into_concept now input db).0
merge_into_concept-HasEvidence now input db h =
    elim (Result-cases (merge_into_concept now input db).1) [
      | inr (e, thrown) ↦ rw (merge_into_concept-err now input db e thrown) h
      | inl (report, returned) ↦
          let (seen, found, updated) = merged-concepts now input db report returned in
          let grown = merged-evidence now input db report returned in
          rw (updated, grown)
            (All-update_where (target_of input) (merged_row now input seen)
              (λ (c : ConceptRow). any (is_about c.uuid) _ ≡ true) (λ c hit k. k) db.concepts
              (more_evidence _ db.evidence db.concepts h))
    ]
