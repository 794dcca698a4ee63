-- ===== src/Concepts/Fingerprint/Injective.antt =====
-- About `evidenceFingerprint` on two pieces of evidence.
use teamem_server.Prelude.{
  ℕ, zero, suc, ◌==◌, ◌+◌, ◌-◌, ◌*◌, ◌/◌, ◌%◌, ◌<◌, ◌≡◌, refl, length, ap, ◌∙◌, sym, List, [], ◌∷◌,
  ◌++◌, arith, ltb, if◌then◌else◌, Bool-cases, inl, inr,
}
use teamem_server.Concepts.Rows.{
  EvidenceKind, commit, pr, issue, pr_comment, repo_file, mcp_write, manual, EvidenceInput,
}
use teamem_server.Concepts.Contract.{codes}
use teamem_server.Concepts.Fingerprint.{
  kind_text, escape, decimal_onto, decimal, or_empty, evidence_fingerprint, pipe,
}

escape_split :
    (s t r r' : List ℕ) → (escape s ++ (pipe ∷ r)) ≡ (escape t ++ (pipe ∷ r')) → (s ≡ t) × (r ≡ r')
unfolding escape
escape_split [] [] r r' h = (refl, cc)
escape_split [] (d ∷ ds) r r' h = ground arith
escape_split (c ∷ cs) [] r r' h = ground arith
escape_split (c ∷ cs) (d ∷ ds) r r' h = ground (arith, escape_split cs ds r r')

-- Reading digits back.
value : ℕ → List ℕ → ℕ
value acc [] = acc
value acc (c ∷ cs) = value (acc * 10 + (c - b'0')) cs

value-decimal_onto :
    (fuel n : ℕ) (rest : List ℕ) → n < fuel → value 0 (decimal_onto fuel n rest) ≡ value n rest
unfolding value decimal_onto
value-decimal_onto zero n rest h = elim h [ ]
value-decimal_onto (suc fuel) n rest h = elim (Bool-cases (ltb n 10)) [
  | inl small ↦ rw small (ap (λ k. value k rest) (omega arith))
  | inr big ↦ rw big (
      value-decimal_onto fuel (n / 10) ((n % 10 + b'0') ∷ rest) (ground arith)
      ∙ ap (λ k. value k rest) (omega arith))
]

decimal-injective : (n m : ℕ) → decimal n ≡ decimal m → n ≡ m
unfolding decimal value
decimal-injective n m h =
    sym (value-decimal_onto (suc n) n [] (omega arith))
    ∙ ap (value 0) h
    ∙ value-decimal_onto (suc m) m [] (omega arith)

-- The kind that a text names, by its length and its first character.
kind_of : List ℕ → EvidenceKind
kind_of [] = manual
kind_of (c ∷ cs) =
    let n = length cs * 1000 + c in
    if n == 5099
    then commit
    else if n == 1112
    then pr
    else if n == 4105
    then issue
    else if n == 9112
    then pr_comment
    else if n == 8114
    then repo_file
    else if n == 8109
    then mcp_write
    else manual

kind_of-kind_text : (a : EvidenceKind) → kind_of (codes (kind_text a)) ≡ a
unfolding kind_of
kind_of-kind_text commit = refl
kind_of-kind_text pr = refl
kind_of-kind_text issue = refl
kind_of-kind_text pr_comment = refl
kind_of-kind_text repo_file = refl
kind_of-kind_text mcp_write = refl
kind_of-kind_text manual = refl

-- If two pieces of evidence have the same fingerprint, they have the same kind, the same reference,
-- repository, commit and path (an absent one counting as empty), and times in the same second.
pub evidence_fingerprint-injective :
    (a b : EvidenceInput)
    → evidence_fingerprint a ≡ evidence_fingerprint b
    → (a.kind ≡ b.kind)
      × (or_empty a.ref ≡ or_empty b.ref)
      × (or_empty a.repo ≡ or_empty b.repo)
      × (or_empty a.commit_sha ≡ or_empty b.commit_sha)
      × (or_empty a.path ≡ or_empty b.path)
      × (a.at / 1000 ≡ b.at / 1000)
unfolding evidence_fingerprint
evidence_fingerprint-injective a b h =
    let (kind, h1) = escape_split _ _ _ _ h in
    let (ref, h2) = escape_split _ _ _ _ h1 in
    let (repo, h3) = escape_split _ _ _ _ h2 in
    let (sha, h4) = escape_split _ _ _ _ h3 in
    let (path, h5) = escape_split _ _ _ _ h4 in
    (
      sym (kind_of-kind_text a.kind) ∙ ap kind_of kind ∙ kind_of-kind_text b.kind,
      ref,
      repo,
      sha,
      path,
      decimal-injective (a.at / 1000) (b.at / 1000) h5,
    )
