-- ===== src/Export/Archive/Reader.antt =====
-- A reader of ustar archives with GNU long names, which says what a reader finds in the archives of
-- export/archive.ts. It is written from the format: it takes only the type of a file from the writer.
use teamem_server.Prelude.{
  ℕ, zero, suc, ◌+◌, ◌-◌, ◌*◌, ◌%◌, ◌==◌, Bool, true, ◌&&◌, Option, none, some, List, [], ◌∷◌, take,
  drop, leb, ltb, if◌then◌else◌, length,
}
use teamem_server.Concepts.Contract.{codes}
use teamem_server.Concepts.Merge.{codes_eq}
use teamem_server.Export.Archive.{SourceFile}
use teamem_server.Export.Archive.Bytes.{slice}

-- The number that octal digits write, up to the first other byte.
unfoldable pub read_octal : ℕ → List ℕ → ℕ
read_octal acc [] = acc
read_octal acc (b ∷ bs) =
    let rest = read_octal (acc * 8 + (b - b'0')) bs in
    if leb b'0' b && ltb b b'8' then rest else acc

unfoldable pub until_nul : List ℕ → List ℕ
until_nul [] = []
until_nul (b ∷ bs) = let rest = until_nul bs in if b == 0 then [] else b ∷ rest

unfoldable pub is_zero : List ℕ → Bool
is_zero [] = true
is_zero (b ∷ bs) = (b == 0) && is_zero bs

abbrev pub first_byte : List ℕ → ℕ
first_byte [] = 0
first_byte (b ∷ bs) = b

pub record Entry : Type 0 where
  pub name : List ℕ
  pub size : ℕ
  pub typeflag : ℕ

unfoldable pub byte_sum : List ℕ → ℕ
byte_sum [] = 0
byte_sum (b ∷ bs) = b + byte_sum bs

-- The sum of a header's bytes, where the eight bytes of the checksum itself count as spaces.
abbrev pub header_sum : List ℕ → ℕ
header_sum block = byte_sum (take 148 block) + (8 * 32 + byte_sum (drop 156 block))

abbrev pub is_ustar : List ℕ → Bool
is_ustar block = codes_eq (slice 257 5 block) (codes "ustar")

-- The length of `size` bytes with what fills up their last block.
unfoldable pub whole_blocks : ℕ → ℕ
whole_blocks size = if size % 512 == 0 then size else size + (512 - size % 512)

-- A header block with the magic of the format and a right checksum.
unfoldable pub read_header : List ℕ → Option Entry
unfolding read_octal until_nul byte_sum codes_eq
read_header block =
    if is_ustar block && (read_octal 0 (slice 148 8 block) == header_sum block)
    then some (record {
      name = until_nul (slice 0 100 block);
      size = read_octal 0 (slice 124 12 block);
      typeflag = first_byte (slice 156 1 block);
    })
    else none

-- The path of a file: the long name before it, if there is one.
abbrev pub file_path : Option (List ℕ) → List ℕ → List ℕ
file_path none name = name
file_path (some long_name) name = long_name

abbrev pub with_file : SourceFile → Option (List SourceFile) → Option (List SourceFile)
with_file file none = none
with_file file (some files) = some (file ∷ files)

-- Two blocks of zeros end an archive.
unfoldable pub read_end : List ℕ → Option (List SourceFile)
unfolding is_zero
read_end bytes = if leb 1024 (length bytes) && is_zero (take 1024 bytes) then some [] else none

-- The entries up to the zero blocks; `long_name` is what the entry before said.
unfoldable pub read_entries : ℕ → Option (List ℕ) → List ℕ → Option (List SourceFile)
unfolding is_zero read_header until_nul whole_blocks read_end
read_entries zero long_name bytes = none
read_entries (suc fuel) long_name bytes =
    if is_zero (take 512 bytes) then read_end bytes else (elim (read_header (take 512 bytes)) [
      | none ↦ none
      | some e ↦
          let content = take e.size (drop 512 bytes) in
          let others = drop (whole_blocks e.size) (drop 512 bytes) in
          let rest =
            read_entries fuel (if e.typeflag == b'L' then some (until_nul content) else none)
              others in
          if e.typeflag == b'L'
          then rest
          else if e.typeflag == b'0'
          then with_file (record { rel_path = file_path long_name e.name; content = content }) rest
          else none
    ])

unfoldable pub read_tar : List ℕ → Option (List SourceFile)
unfolding read_entries
read_tar bytes = read_entries (length bytes) none bytes
