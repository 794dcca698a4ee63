-- ===== src/Concepts/Fingerprint.antt =====
-- `evidenceFingerprint` of db/repositories/concepts-merge.ts, over code points.
pub mod Injective
use teamem_server.Prelude.{
  ℕ, zero, suc, ◌==◌, ◌+◌, ◌/◌, ◌%◌, Option, none, some, String, List, [], ◌∷◌, ◌++◌, if◌then◌else◌,
  ltb,
}
use teamem_server.Concepts.Rows.{
  EvidenceKind, commit, pr, issue, pr_comment, repo_file, mcp_write, manual, EvidenceInput,
}
use teamem_server.Concepts.Contract.{codes}

abbrev pub kind_text : EvidenceKind → String
kind_text commit = "commit"
kind_text pr = "pr"
kind_text issue = "issue"
kind_text pr_comment = "pr_comment"
kind_text repo_file = "repo_file"
kind_text mcp_write = "mcp_write"
kind_text manual = "manual"

abbrev pub pipe : ℕ
pipe = b'|'

abbrev pub backslash : ℕ
backslash = 92

-- The two replacements, `\` by `\\` and then `|` by `\|`, character by character.
unfoldable pub escape : List ℕ → List ℕ
escape [] = []
escape (c ∷ cs) =
    let rest = escape cs in
    if c == backslash
    then backslash ∷ backslash ∷ rest
    else if c == pipe
    then backslash ∷ pipe ∷ rest
    else c ∷ rest

-- `String(n)`: the decimal digits in front of what is there, with `n` for fuel.
unfoldable pub decimal_onto : ℕ → ℕ → List ℕ → List ℕ
decimal_onto zero n rest = rest
decimal_onto (suc fuel) n rest =
    let more = decimal_onto fuel (n / 10) ((n % 10 + b'0') ∷ rest) in
    if ltb n 10 then (n + b'0') ∷ rest else more

unfoldable pub decimal : ℕ → List ℕ
unfolding decimal_onto
decimal n = decimal_onto (suc n) n []

-- `value ?? ''`
abbrev pub or_empty : Option String → List ℕ
or_empty none = []
or_empty (some s) = codes s

unfoldable pub evidence_fingerprint : EvidenceInput → List ℕ
unfolding escape decimal
evidence_fingerprint ev =
    escape (codes (kind_text ev.kind))
    ++ (pipe
        ∷ (escape (or_empty ev.ref)
            ++ (pipe
                ∷ (escape (or_empty ev.repo)
                    ++ (pipe
                        ∷ (escape (or_empty ev.commit_sha)
                            ++ (pipe
                                ∷ (escape (or_empty ev.path)
                                    ++ (pipe ∷ decimal (ev.at / 1000))))))))))
