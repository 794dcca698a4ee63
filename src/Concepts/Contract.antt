-- ===== src/Concepts/Contract.antt =====
-- The contract on paths and evidence, packages/schema/src/concept.ts. `is_url` stands for Zod's URL
-- check.
use Prim.Native.Char.{code}
use teamem_server.Prelude.{
  ℕ, ◌==◌, leb, Bool, true, false, not, ◌&&◌, ◌||◌, Option, none, some, String, List, [], ◌∷◌,
  length,
}
use teamem_server.Concepts.Rows.{EvidenceKind, repo_file, mcp_write, manual, EvidenceInput}

-- The code points of a string.
abbrev pub codes : String → List ℕ
codes String.[] = []
codes (String.◌∷◌ c s) = code c ∷ codes s

abbrev pub is_digit : ℕ → Bool
is_digit c = leb b'0' c && leb c b'9'

-- `[a-z0-9-]`
abbrev pub is_segment_char : ℕ → Bool
is_segment_char c = (leb b'a' c && leb c b'z') || (is_digit c || c == b'-')

-- `[a-z0-9-]+(\/[a-z0-9-]+)*`, from within a segment that is empty or not.
unfoldable pub matches_segments : Bool → List ℕ → Bool
matches_segments in_segment [] = in_segment
matches_segments in_segment (c ∷ cs) =
    (is_segment_char c || (c == b'/' && in_segment)) && matches_segments (is_segment_char c) cs

-- `conceptPath`
unfoldable pub is_concept_path : String → Bool
unfolding matches_segments
is_concept_path s = leb (length (codes s)) 200 && matches_segments false (codes s)

-- `[0-9a-f]`
abbrev pub is_hex : ℕ → Bool
is_hex c = is_digit c || (leb b'a' c && leb c b'f')

unfoldable pub all_hex : List ℕ → Bool
all_hex [] = true
all_hex (c ∷ cs) = is_hex c && all_hex cs

-- `/^[0-9a-f]{7,40}$/`
unfoldable pub is_commit_sha : String → Bool
unfolding all_hex
is_commit_sha s = all_hex (codes s) && (leb 7 (length (codes s)) && leb (length (codes s)) 40)

abbrev pub is_absent : Option String → Bool
is_absent none = true
is_absent (some s) = false

abbrev pub is_given : Option String → Bool
is_given none = false
is_given (some s) = not (leb (length (codes s)) 0)

abbrev pub given_sha : Option String → Bool
given_sha none = false
given_sha (some s) = is_commit_sha s

module _ (is_url : String → Bool) where
  abbrev pub given_url : Option String → Bool
  given_url none = false
  given_url (some s) = is_url s

  -- One member of the union `evidence` for each kind; a strict object has no other key.
  unfoldable pub is_evidence_of : EvidenceKind → EvidenceInput → Bool
  unfolding is_commit_sha
  is_evidence_of repo_file ev =
      is_absent ev.ref && (is_given ev.repo && (given_sha ev.commit_sha && is_given ev.path))
  is_evidence_of mcp_write ev =
      is_given ev.ref && (is_absent ev.repo && (is_absent ev.commit_sha && is_absent ev.path))
  is_evidence_of manual ev =
      is_given ev.ref && (is_absent ev.repo && (is_absent ev.commit_sha && is_absent ev.path))
  is_evidence_of _ ev =
      given_url ev.ref && (is_absent ev.repo && (is_absent ev.commit_sha && is_absent ev.path))

  unfoldable pub all_evidence : List EvidenceInput → Bool
  unfolding is_evidence_of
  all_evidence [] = true
  all_evidence (ev ∷ evs) = is_evidence_of ev.kind ev && all_evidence evs

  -- `evidenceSchema.array().nonempty()`
  unfoldable pub is_evidence_list : List EvidenceInput → Bool
  unfolding all_evidence
  is_evidence_list [] = false
  is_evidence_list (ev ∷ evs) = all_evidence (ev ∷ evs)
