-- ===== src/Compile/ToConcept/Accepted.antt =====
-- About what `toConcept` builds and the contract of the repository.
use teamem_server.Prelude.{
  none-ne-some, some-injective, ℕ, ◌≡◌, refl, subst, inl, inr, Bool, true, ◌&&◌, Option, none, some,
  String, List, [], ◌∷◌, Option-cases, Bool-cases, arith, if◌then◌else◌,
}
use teamem_server.Concepts.Rows.{
  active, EvidenceKind, commit, pr, issue, pr_comment, EvidenceInput, CreateConceptInput,
}
use teamem_server.Concepts.Contract.{
  is_given, is_evidence_of, is_evidence_list, is_commit_sha, given_url,
}
use teamem_server.Compile.Events.{
  SourceKind, cli_init, github_commit, github_pr, github_issue, github_pr_comment, mcp_write,
  external_event, EventRow, text_at,
}
use teamem_server.Compile.ToConcept.{
  Extract, referring, evidence_for, file_evidence, build_evidence, to_concept, by_url,
}

module _ (is_url : String → Bool) where
  -- A URL that is there and is not empty passes the check.
  abbrev pub url_is_sound : EventRow → Bool
  url_is_sound e = if is_given e.url then given_url is_url e.url else true

  by_url-accepted :
      (kind : EvidenceKind) (e : EventRow) (evs : List EvidenceInput)
      → is_evidence_of is_url kind (referring kind e.url e.occurred_at)
        ≡ (given_url is_url e.url && true)
      → url_is_sound e ≡ true
      → by_url kind e ≡ some evs
      → is_evidence_list is_url evs ≡ true
  unfolding is_evidence_list
  by_url-accepted kind e evs rule sound h = elim (Bool-cases (is_given e.url)) [
    | inr missing ↦ absurd (none-ne-some (rw missing at h))
    | inl given ↦
        let is_sound : given_url is_url e.url ≡ true = rw given at sound in
        subst (λ l. is_evidence_list is_url l ≡ true) (some-injective (rw given at h))
          (rw rule (rw is_sound refl))
  ]

  file-accepted :
      (repo sha path : Option String) (at : ℕ) (evs : List EvidenceInput)
      → file_evidence repo sha path at ≡ some evs
      → is_evidence_list is_url evs ≡ true
  unfolding is_evidence_list is_evidence_of
  file-accepted repo none path at evs h = elim (Bool-cases (is_given repo)) [
    | inl named ↦ absurd (none-ne-some (rw named at h))
    | inr nameless ↦ absurd (none-ne-some (rw nameless at h))
  ]
  file-accepted repo (some s) path at evs h =
      elim (Bool-cases (is_given repo && (is_given (some s) && is_given path))) [
        | inr lacking ↦ absurd (none-ne-some (rw lacking at h))
        | inl complete ↦ elim (Bool-cases (is_commit_sha s)) [
          | inr malformed ↦ absurd (none-ne-some (rw (complete, malformed) at h))
          | inl is_sha ↦
              subst (λ l. is_evidence_list is_url l ≡ true)
                (some-injective (rw (complete, is_sha) at h)) (ground (arith, complete, is_sha))
        ]
      ]

  own_id-accepted :
      (e : EventRow)
      → is_given (some e.id) ≡ true
      → is_evidence_list is_url (referring EvidenceKind.mcp_write (some e.id) e.occurred_at ∷ [])
        ≡ true
  unfolding is_evidence_list is_evidence_of
  own_id-accepted e named = rw named refl

  evidence_for-accepted :
      (kind : SourceKind) (e : EventRow) (evs : List EvidenceInput)
      → url_is_sound e ≡ true
      → is_given (some e.id) ≡ true
      → evidence_for kind e ≡ some evs
      → is_evidence_list is_url evs ≡ true
  unfolding is_evidence_of
  evidence_for-accepted cli_init e evs sound named h =
      file-accepted (text_at "repo" e.payload) (text_at "commitSha" e.payload)
        (text_at "path" e.payload) e.occurred_at evs h
  evidence_for-accepted github_commit e evs sound named h =
      by_url-accepted commit e evs refl sound h
  evidence_for-accepted github_pr e evs sound named h = by_url-accepted pr e evs refl sound h
  evidence_for-accepted github_issue e evs sound named h = by_url-accepted issue e evs refl sound h
  evidence_for-accepted github_pr_comment e evs sound named h =
      by_url-accepted pr_comment e evs refl sound h
  evidence_for-accepted mcp_write e evs sound named h =
      subst (λ l. is_evidence_list is_url l ≡ true) (some-injective h) (own_id-accepted e named)
  evidence_for-accepted external_event e evs sound named h = absurd (none-ne-some h)

  -- If the event's URL is absent, empty or passes the URL check, and its id is not empty, then what
  -- `toConcept` makes of it, where it makes anything, has evidence that `createConcept` accepts;
  -- it is in the event's scope, and active, and its two times are the event's.
  pub to_concept-accepted :
      (x : Extract) (e : EventRow) (input : CreateConceptInput)
      → url_is_sound e ≡ true
      → is_given (some e.id) ≡ true
      → to_concept x e ≡ some input
      → (is_evidence_list is_url input.evidence ≡ true)
        × (input.team_id ≡ e.team_id)
        × (input.project_id ≡ e.project_id)
        × (input.status ≡ active)
        × (input.first_seen ≡ e.occurred_at)
        × (input.last_confirmed ≡ e.occurred_at)
  unfolding to_concept build_evidence
  to_concept-accepted x e input sound named h = elim (Option-cases (evidence_for e.kind e)) [
    | inl missing ↦ absurd (none-ne-some (rw (missing, to_concept) at h))
    | inr ([], found) ↦ absurd (none-ne-some (rw (found, to_concept) at h))
    | inr (ev ∷ evs, found) ↦
        let fine = evidence_for-accepted e.kind e (ev ∷ evs) sound named found in
        let same = some-injective (rw (found, to_concept) at h) in
        subst
          (λ (i : CreateConceptInput).
            (is_evidence_list is_url i.evidence ≡ true)
            × (i.team_id ≡ e.team_id)
            × (i.project_id ≡ e.project_id)
            × (i.status ≡ active)
            × (i.first_seen ≡ e.occurred_at)
            × (i.last_confirmed ≡ e.occurred_at))
          same (fine, refl, refl, refl, refl, refl)
  ]
