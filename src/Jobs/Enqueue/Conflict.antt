-- ===== src/Jobs/Enqueue/Conflict.antt =====
-- `isIdConflict` of queue/enqueue-compilation.ts: whether an error that the queue throws says that a message with the
-- same id is there. A text is the codes of its characters.
use teamem_server.Prelude.{
  ℕ, ◌==◌, Bool, true, false, ◌&&◌, ◌||◌, Option, none, some, String, List, [], ◌∷◌, drop, col_eq,
  if◌then◌else◌,
}
use teamem_server.Concepts.Contract.{codes}
use teamem_server.Redact.{starts_with, index_of}

-- What the code reads of the `cause` of an error.
pub record Cause : Type 0 where
  pub code : Option String
  pub constraint : Option (List ℕ)

-- What was thrown: an `Error`, or something else.
pub data SendError : Type 0 where
  error : List ℕ → Option Cause → SendError
  no_error : SendError

abbrev pub is_found : Option ℕ → Bool
is_found none = false
is_found (some i) = true

-- `s.includes(tag)`
abbrev pub includes : List ℕ → List ℕ → Bool
includes tag s = is_found (index_of tag s)

-- The characters that `.` does not match.
abbrev pub is_line_end : ℕ → Bool
is_line_end c = c == 10 || (c == 13 || (c == 8232 || c == 8233))

unfoldable pub line_of : List ℕ → List ℕ
line_of [] = []
line_of (c ∷ s) = let rest = line_of s in if is_line_end c then [] else c ∷ rest

-- `/job.*pkey/.test(s)`
unfoldable pub has_job_pkey : List ℕ → Bool
unfolding line_of index_of starts_with
has_job_pkey [] = false
has_job_pkey (c ∷ s) =
    (starts_with (codes "job") (c ∷ s) && includes (codes "pkey") (line_of (drop 3 (c ∷ s))))
    || has_job_pkey s

abbrev pub names_job_key : Option (List ℕ) → Bool
names_job_key none = false
names_job_key (some s) = has_job_pkey s || includes (codes "job_pk") s

abbrev pub is_key_violation : Option Cause → Bool
is_key_violation none = false
is_key_violation (some cause) = col_eq cause.code "23505" && names_job_key cause.constraint

unfoldable pub is_id_conflict : SendError → Bool
unfolding has_job_pkey index_of
is_id_conflict no_error = false
is_id_conflict (error message cause) =
    (includes (codes "duplicate key") message && includes (codes "job") message)
    || is_key_violation cause
