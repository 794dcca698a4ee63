-- ===== src/Export/Archive/Entries.antt =====
-- About one entry of an archive, export/archive.ts: what a reader makes of it.
use mathlib.Core.List.{append_assoc}
use teamem_server.Prelude.{
  ℕ, suc, ◌+◌, ◌-◌, ◌≤◌, ◌<◌, ◌%◌, ◌≡◌, refl, sym, ap, subst, ◌∙◌, inl, inr, Bool, true, false,
  ◌==◌, ◌||◌, Option, none, some, List, [], ◌∷◌, ◌++◌, length, length-append, take, drop, any, ltb,
  if◌then◌else◌, Bool-cases, true-ne-false, All, All-take, arith,
}
use teamem_server.Export.Archive.{
  ArchiveError, replicate, overlay, path_error, split, is_unsafe_segment, starts_with_slash,
  ends_with_slash, max_entry_path_bytes, padded_length, padded, entry, build_header,
}
use teamem_server.Export.Archive.Bytes.{
  length-replicate, length-overlay, overlay-replicate, take-append, drop-append,
}
use teamem_server.Export.Archive.Fields.{IsByte, take_whole}
use teamem_server.Export.Archive.Header.{length-build_header, read_header_lem, is_zero-build_header}
use teamem_server.Export.Archive.Reader.{
  until_nul, is_zero, whole_blocks, read_header, file_path, with_file, read_entries,
}

drop_whole : (w : ℕ) (xs ys : List ℕ) → length xs ≡ w → drop w (xs ++ ys) ≡ ys
drop_whole w xs ys h = subst (λ n. drop n (xs ++ ys) ≡ ys) h (drop-append xs ys)

padded_length_bound : (n : ℕ) → n ≤ padded_length n
padded_length_bound n = omega arith

length-padded : (body : List ℕ) → length (padded body) ≡ padded_length (length body)
length-padded body =
    length-overlay body (replicate (padded_length (length body)) 0)
    ∙ length-replicate (padded_length (length body)) 0

padded-append :
    (body : List ℕ) → padded body ≡ body ++ replicate (padded_length (length body) - length body) 0
padded-append body =
    let room = padded_length_bound (length body) in
    let same : padded_length (length body)
        ≡ length body + (padded_length (length body) - length body) =
      omega arith in
    ap (λ n. overlay body (replicate n 0)) same
    ∙ overlay-replicate body (padded_length (length body) - length body)

take-padded : (body rest : List ℕ) → take (length body) (padded body ++ rest) ≡ body
take-padded body rest =
    ap (λ l. take (length body) (l ++ rest)) (padded-append body)
    ∙ ap (take (length body))
        (append_assoc body (replicate (padded_length (length body) - length body) 0) rest)
    ∙ take-append body (replicate (padded_length (length body) - length body) 0 ++ rest)

-- The writer rounds up to the multiple of 512 that the reader skips to.
whole_blocks-eq : (n : ℕ) → whole_blocks n ≡ padded_length n
unfolding whole_blocks
whole_blocks-eq n = elim (Bool-cases (n % 512 == 0)) [
  | inl full ↦ rw full (let no_rest : n % 512 ≡ 0 = ground arith in omega arith)
  | inr partly ↦ rw partly (let some_rest : ¬ (n % 512 ≡ 0) = ground arith in omega arith)
]

drop-padded : (body rest : List ℕ) → drop (whole_blocks (length body)) (padded body ++ rest) ≡ rest
drop-padded body rest =
    drop_whole (whole_blocks (length body)) (padded body) rest
      (length-padded body ∙ sym (whole_blocks-eq (length body)))

-- The entry of a path whose name field a reader can use.
pub record Readable (path : List ℕ) (body : List ℕ) : Type 0 where
  pub bytes : All IsByte path
  pub nonzero : All (λ b. ¬ (b ≡ 0)) path
  pub size : length body < 8589934592

module _ (path body rest : List ℕ) (r : Readable path body) where
  module _ (typeflag : ℕ) (flag : IsByte typeflag) (some_flag : ¬ (typeflag ≡ 0)) where
    abbrev header : List ℕ
    header = build_header (take 100 path) (length body) typeflag

    abbrev name : List ℕ
    name = take 99 (take 100 path)

    first_block : take 512 (entry path typeflag body ++ rest) ≡ header
    unfolding entry
    first_block =
        ap (take 512) (append_assoc header (padded body) rest)
        ∙ take_whole 512 header (padded body ++ rest)
            (length-build_header (take 100 path) (length body) typeflag)

    other_blocks : drop 512 (entry path typeflag body ++ rest) ≡ padded body ++ rest
    unfolding entry
    other_blocks =
        ap (drop 512) (append_assoc header (padded body) rest)
        ∙ drop_whole 512 header (padded body ++ rest)
            (length-build_header (take 100 path) (length body) typeflag)

    header_read :
        read_header header ≡ some (record { name = name; size = length body; typeflag = typeflag })
    header_read =
        read_header_lem (take 100 path) (length body) typeflag (All-take IsByte 100 path r.bytes)
          (All-take (λ b. ¬ (b ≡ 0)) 100 path r.nonzero) r.size flag

    not_the_end : is_zero header ≡ false
    not_the_end =
        is_zero-build_header (take 100 path) (length body) typeflag
          (All-take IsByte 100 path r.bytes) r.size flag some_flag

    pub length-entry :
        length (entry path typeflag body ++ rest)
        ≡ 512 + (padded_length (length body) + length rest)
    unfolding entry
    length-entry =
        length-append (header ++ padded body) rest
        ∙ ap (λ n. n + length rest) (length-append header (padded body))
        ∙ (let head = length-build_header (take 100 path) (length body) typeflag in
            let tail = length-padded body in omega arith)

  pub read_long_name :
      (fuel : ℕ) (long_name : Option (List ℕ))
      → read_entries (suc fuel) long_name (entry path b'L' body ++ rest)
        ≡ read_entries fuel (some (until_nul body)) rest
  unfolding read_entries
  read_long_name fuel long_name =
      rw
        (
          first_block b'L' (omega arith) (omega arith),
          not_the_end b'L' (omega arith) (omega arith),
          header_read b'L' (omega arith) (omega arith),
          other_blocks b'L' (omega arith) (omega arith),
          take-padded body rest,
          drop-padded body rest,
        )
        refl

  pub read_file :
      (fuel : ℕ) (long_name : Option (List ℕ))
      → read_entries (suc fuel) long_name (entry path b'0' body ++ rest)
        ≡ with_file
            (record { rel_path = file_path long_name (take 99 (take 100 path)); content = body })
            (read_entries fuel none rest)
  unfolding read_entries
  read_file fuel long_name =
      rw
        (
          first_block b'0' (omega arith) (omega arith),
          not_the_end b'0' (omega arith) (omega arith),
          header_read b'0' (omega arith) (omega arith),
          other_blocks b'0' (omega arith) (omega arith),
          take-padded body rest,
          drop-padded body rest,
        )
        refl

no_error :
    (c : Bool) (e : ArchiveError) (r : Option ArchiveError)
    → (if c then some e else r) ≡ none
    → (c ≡ false) × (r ≡ none)
no_error true e r h = cc
no_error false e r h = (refl, h)

no_unsafe_character :
    (path : List ℕ) → any (λ c. c == b'\\' || c == 0) path ≡ false → All (λ b. ¬ (b ≡ 0)) path
no_unsafe_character [] h = tt
no_unsafe_character (c ∷ path) h = elim (Bool-cases (c == b'\\' || c == 0)) [
  | inl unsafe ↦ absurd (true-ne-false (sym (rw unsafe refl) ∙ h))
  | inr safe ↦ ((λ zero_byte. ground arith), no_unsafe_character path (sym (rw safe refl) ∙ h))
]

-- What the check of a path leaves: no NUL, and at most 4096 bytes.
pub path_error-nonzero :
    (path : List ℕ) → path_error path ≡ none → All (λ b. ¬ (b ≡ 0)) path × (length path ≤ 4096)
unfolding path_error
path_error-nonzero path h =
    let first = no_error (length path == 0) ArchiveError.empty_path _ h in
    let second =
      no_error (ltb max_entry_path_bytes (length path)) ArchiveError.path_too_long _ first.1 in
    let third =
      no_error (starts_with_slash path || ends_with_slash path) ArchiveError.not_relative _
        second.1 in
    let fourth =
      no_error (any (λ c. c == b'\\' || c == 0) path) ArchiveError.unsafe_character
        (if any is_unsafe_segment (split path) then some ArchiveError.unsafe_segment else none)
        third.1 in
    let fits = second.0 in (no_unsafe_character path fourth.0, ground arith)
