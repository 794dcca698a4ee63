-- ===== src/Export/Archive/RoundTrip.antt =====
-- The archives of export/archive.ts, read back.
use mathlib.Core.List.{append_assoc}
use teamem_server.Prelude.{
  ℕ, zero, suc, ◌+◌, ◌≤◌, ◌<◌, ◌≡◌, refl, sym, ap, subst, ◌∙◌, inl, inr, Bool, true, false, Option,
  none, some, Result, ok, err, err-ne-ok, ok-injective, List, [], ◌∷◌, ◌++◌, length, length-append,
  take, any, ltb, if◌then◌else◌, Bool-cases, All, arith,
}
use teamem_server.Concepts.Merge.{codes_eq}
use teamem_server.Export.Archive.{
  SourceFile, ArchiveError, path_error, entry, file_entries, build_entries, build_okf_tar,
  end_of_archive,
}
use teamem_server.Export.Archive.Fields.{IsByte, until_nul-take, take_whole}
use teamem_server.Export.Archive.Reader.{
  until_nul, is_zero, file_path, read_end, read_entries, read_tar,
}
use teamem_server.Export.Archive.Entries.{
  Readable, path_error-nonzero, read_long_name, read_file, length-entry,
}

abbrev pub IsAscii : ℕ → Type 0
IsAscii b = b < 128

ascii-IsByte : (path : List ℕ) → All IsAscii path → All IsByte path
ascii-IsByte [] h = tt
ascii-IsByte (c ∷ path) h = (let small = h.0 in omega arith, ascii-IsByte path h.1)

-- A file that the format can hold: an ASCII path, whose codes are its bytes, and less than 8 GiB.
abbrev pub Archivable : SourceFile → Type 0
Archivable file = All IsAscii file.rel_path × (length file.content < 8589934592)

take_short : (n : ℕ) (xs : List ℕ) → length xs ≤ n → take n xs ≡ xs
take_short zero [] h = refl
take_short zero (x ∷ xs) h = absurd (omega arith)
take_short (suc n) [] h = refl
take_short (suc n) (x ∷ xs) h = ap (λ l. x ∷ l) (take_short n xs (omega arith))

read_name : (path : List ℕ) → All (λ b. ¬ (b ≡ 0)) path → until_nul (path ++ 0 ∷ []) ≡ path
read_name path h =
    ap until_nul
      (sym (take_whole (length path + 1) (path ++ 0 ∷ []) [] (length-append path (0 ∷ []))))
    ∙ until_nul-take (length path + 1) path [] h (omega arith)

module _ (file : SourceFile) (files : List SourceFile) (rest : List ℕ)
    (safe : path_error file.rel_path ≡ none) (fits : Archivable file)
    (reads : (fuel : ℕ) → length rest ≤ fuel → read_entries fuel none rest ≡ some files) where
  file-Readable : Readable file.rel_path file.content
  file-Readable = record {
    bytes = ascii-IsByte file.rel_path fits.0;
    nonzero = (path_error-nonzero file.rel_path safe).0;
    size = fits.1;
  }

  name-Readable : Readable file.rel_path (file.rel_path ++ 0 ∷ [])
  name-Readable =
      let nonzero = path_error-nonzero file.rel_path safe in
      let short = nonzero.1 in
      let one_more = length-append file.rel_path (0 ∷ []) in
      record { bytes = ascii-IsByte file.rel_path fits.0; nonzero = nonzero.0; size = omega arith }

  read_content :
      (fuel : ℕ) (long_name : Option (List ℕ))
      → file_path long_name (take 99 (take 100 file.rel_path)) ≡ file.rel_path
      → length (entry file.rel_path b'0' file.content ++ rest) ≤ fuel
      → read_entries fuel long_name (entry file.rel_path b'0' file.content ++ rest)
        ≡ some (file ∷ files)
  read_content fuel long_name path h =
      let whole =
        length-entry file.rel_path file.content rest file-Readable b'0' (omega arith)
          (omega arith) in
      with_fuel fuel (omega arith)
    where
      with_fuel :
          (fuel : ℕ)
          → 512 + length rest ≤ fuel
          → read_entries fuel long_name (entry file.rel_path b'0' file.content ++ rest)
            ≡ some (file ∷ files)
      with_fuel zero h = absurd (omega arith)
      with_fuel (suc fuel) h =
          read_file file.rel_path file.content rest file-Readable fuel long_name
          ∙ rw (path, reads fuel (omega arith)) refl

  abbrev name_entry : List ℕ
  name_entry = entry file.rel_path b'L' (file.rel_path ++ 0 ∷ [])

  abbrev content_entry : List ℕ
  content_entry = entry file.rel_path b'0' file.content

  file_entries-if :
      (long : Bool)
      → ltb 99 (length file.rel_path) ≡ long
      → file_entries file ≡ (if long then name_entry else []) ++ content_entry
  unfolding file_entries
  file_entries-if long h = ap (λ b. (if b then name_entry else []) ++ content_entry) h

  read_with_name :
      (fuel : ℕ)
      → 99 < length file.rel_path
      → length (name_entry ++ (content_entry ++ rest)) ≤ fuel
      → read_entries fuel none (name_entry ++ (content_entry ++ rest)) ≡ some (file ∷ files)
  read_with_name zero long h =
      let whole =
        length-entry file.rel_path (file.rel_path ++ 0 ∷ []) (content_entry ++ rest) name-Readable
          b'L' (omega arith) (omega arith) in
      absurd (omega arith)
  read_with_name (suc fuel) long h =
      let whole =
        length-entry file.rel_path (file.rel_path ++ 0 ∷ []) (content_entry ++ rest) name-Readable
          b'L' (omega arith) (omega arith) in
      read_long_name file.rel_path (file.rel_path ++ 0 ∷ []) (content_entry ++ rest) name-Readable
        fuel none
      ∙ ap (λ name. read_entries fuel (some name) (content_entry ++ rest))
          (read_name file.rel_path (path_error-nonzero file.rel_path safe).0)
      ∙ read_content fuel (some file.rel_path) refl (omega arith)

  read_file_entries :
      (fuel : ℕ)
      → length (file_entries file ++ rest) ≤ fuel
      → read_entries fuel none (file_entries file ++ rest) ≡ some (file ∷ files)
  read_file_entries fuel h = elim (Bool-cases (ltb 99 (length file.rel_path))) [
    | inl long ↦
        let split_entries : file_entries file ++ rest ≡ name_entry ++ (content_entry ++ rest) =
          (ap (λ l. l ++ rest) (file_entries-if true long)
            ∙ append_assoc name_entry content_entry rest) in
        ap (read_entries fuel none) split_entries
        ∙ read_with_name fuel (ground arith) (subst (λ l. length l ≤ fuel) split_entries h)
    | inr short ↦
        let one_entry : file_entries file ++ rest ≡ content_entry ++ rest =
          ap (λ l. l ++ rest) (file_entries-if false short) in
        let fits_field : length file.rel_path ≤ 99 = ground arith in
        let whole_name : take 99 (take 100 file.rel_path) ≡ file.rel_path =
          (ap (take 99) (take_short 100 file.rel_path (omega arith))
            ∙ take_short 99 file.rel_path fits_field) in
        ap (read_entries fuel none) one_entry
        ∙ read_content fuel none whole_name (subst (λ l. length l ≤ fuel) one_entry h)
  ]

-- What a step of the writer that goes on does.
build_step :
    (e : Option ArchiveError) (is_seen : Bool) (entries bytes : List ℕ)
    (rest : Result ArchiveError (List ℕ))
    → elim e [
      | some error ↦ err error
      | none ↦
          if is_seen
          then err ArchiveError.duplicate_path
          else (elim rest [ err error ↦ err error | ok others ↦ ok (entries ++ others) ])
    ]
      ≡ ok bytes
    → (e ≡ none) × ((others : List ℕ) × ((rest ≡ ok others) × (bytes ≡ entries ++ others)))
build_step (some error) is_seen entries bytes rest h = absurd (err-ne-ok h)
build_step none true entries bytes rest h = absurd (err-ne-ok h)
build_step none false entries bytes (err error) h = absurd (err-ne-ok h)
build_step none false entries bytes (ok others) h = (refl, (others, (refl, sym (ok-injective h))))

build_entries-ok :
    (seen : List (List ℕ)) (file : SourceFile) (files : List SourceFile) (bytes : List ℕ)
    → build_entries seen (file ∷ files) ≡ ok bytes
    → (path_error file.rel_path ≡ none)
      × ((others : List ℕ) × ((build_entries (file.rel_path ∷ seen) files ≡ ok others)
            × (bytes ≡ file_entries file ++ others)))
unfolding build_entries
build_entries-ok seen file files bytes =
    build_step (path_error file.rel_path) (any (codes_eq file.rel_path) seen) (file_entries file)
      bytes (build_entries (file.rel_path ∷ seen) files)

read_entries-end : (fuel : ℕ) → 1024 ≤ fuel → read_entries fuel none end_of_archive ≡ some []
unfolding read_entries is_zero read_end
read_entries-end zero h = absurd (omega arith)
read_entries-end (suc fuel) h = refl

end_built :
    (seen : List (List ℕ)) (bytes : List ℕ)
    → build_entries seen [] ≡ ok bytes
    → end_of_archive ≡ bytes
unfolding build_entries
end_built seen bytes h = ok-injective h

read_entries-build_entries :
    (seen : List (List ℕ)) (files : List SourceFile) (bytes : List ℕ)
    → build_entries seen files ≡ ok bytes
    → All Archivable files
    → (fuel : ℕ) → length bytes ≤ fuel
    → read_entries fuel none bytes ≡ some files
read_entries-build_entries seen [] bytes built fits fuel h =
    let whole = end_built seen bytes built in
    let room : length bytes ≡ 1024 = ap length (sym whole) in
    ap (read_entries fuel none) (sym whole) ∙ read_entries-end fuel (omega arith)
read_entries-build_entries seen (file ∷ files) bytes built fits fuel h =
    let (safe, (others, (rest_built, whole))) = build_entries-ok seen file files bytes built in
    ap (read_entries fuel none) whole
    ∙ read_file_entries file files others safe fits.0
        (read_entries-build_entries (file.rel_path ∷ seen) files others rest_built fits.1) fuel
        (subst (λ l. length l ≤ fuel) whole h)

-- If the writer takes a list of files, each with a path of ASCII characters and less than 8 GiB of content, then a
-- reader of the format finds in the archive just these files, in their order, with their whole paths and contents; the
-- reader checks the magic and the checksum of every header, skips whole blocks of 512 bytes, and wants two zero blocks
-- at the end.
pub read_tar-build_okf_tar :
    (files : List SourceFile) (bytes : List ℕ)
    → build_okf_tar files ≡ ok bytes
    → All Archivable files
    → read_tar bytes ≡ some files
unfolding build_okf_tar read_tar
read_tar-build_okf_tar files bytes built fits =
    read_entries-build_entries [] files bytes built fits (length bytes) (omega arith)
