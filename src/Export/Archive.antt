-- ===== src/Export/Archive.antt =====
-- The writer of the export's archive, export/archive.ts: `buildOkfTar`. A file's content is its UTF-8
-- bytes, and a path the codes of its characters, which are ASCII, as the renderer's paths are: only of such a path are
-- the conversions to ASCII and to UTF-8 the identity and the count of bytes its length, as it is here.
pub mod Bytes
pub mod Octal
pub mod Fields
pub mod Header
pub mod Reader
pub mod Entries
pub mod RoundTrip
mod Tests
use teamem_server.Prelude.{
  ℕ, zero, suc, ◌+◌, ◌-◌, ◌*◌, ◌/◌, ◌%◌, ◌==◌, Bool, true, false, ◌&&◌, ◌||◌, Option, none, some,
  List, [], ◌∷◌, ◌++◌, Result, ok, err, length, take, drop, last, any, ltb, if◌then◌else◌,
}
use teamem_server.Concepts.Contract.{codes}
use teamem_server.Concepts.Merge.{codes_eq}

abbrev pub tar_block : ℕ
tar_block = 512

abbrev pub tar_mode : ℕ
tar_mode = 420

abbrev pub max_entry_path_bytes : ℕ
max_entry_path_bytes = 4096

pub record SourceFile : Type 0 where
  pub rel_path : List ℕ
  pub content : List ℕ

pub data ArchiveError : Type 0 where
  empty_path path_too_long not_relative unsafe_character unsafe_segment duplicate_path :
      ArchiveError

abbrev pub replicate : ℕ → ℕ → List ℕ
replicate zero b = []
replicate (suc n) b = b ∷ replicate n b

unfoldable pub overlay : List ℕ → List ℕ → List ℕ
overlay [] block = block
overlay (b ∷ bs) [] = []
overlay (b ∷ bs) (c ∷ block) = b ∷ overlay bs block

-- `block.set(bytes, offset)`
unfoldable pub set_bytes : List ℕ → ℕ → List ℕ → List ℕ
unfolding overlay
set_bytes block zero bytes = overlay bytes block
set_bytes [] (suc offset) bytes = []
set_bytes (c ∷ block) (suc offset) bytes = c ∷ set_bytes block offset bytes

unfoldable pub write_field : List ℕ → ℕ → ℕ → List ℕ → List ℕ
unfolding set_bytes
write_field block offset width value =
    let bytes = take (width - 1) value in
    set_bytes (set_bytes block offset bytes) (offset + length bytes) (0 ∷ [])

-- The octal digits of a number, at most as many as the fuel.
unfoldable pub octal_digits : ℕ → ℕ → List ℕ
octal_digits zero n = []
octal_digits (suc fuel) n =
    let before = octal_digits fuel (n / 8) in
    if ltb n 8 then (b'0' + n) ∷ [] else before ++ (b'0' + n % 8) ∷ []

-- `value.toString(8)`
unfoldable pub to_octal : ℕ → List ℕ
unfolding octal_digits
to_octal n = octal_digits (suc n) n

-- `text.padStart(n, '0')`
unfoldable pub pad_start : ℕ → List ℕ → List ℕ
pad_start n text = replicate (n - length text) b'0' ++ text

-- `text.padEnd(n, '0')`
unfoldable pub pad_end : ℕ → List ℕ → List ℕ
pad_end n text = text ++ replicate (n - length text) b'0'

-- `text.slice(-n)`, where n is not 0
unfoldable pub slice_last : ℕ → List ℕ → List ℕ
slice_last n text = drop (length text - n) text

unfoldable pub octal_text : ℕ → ℕ → List ℕ
unfolding to_octal pad_start pad_end slice_last
octal_text width value =
    let digits = if ltb (width - 1) 1 then 1 else width - 1 in
    pad_end digits (slice_last digits (pad_start digits (to_octal value)))

unfoldable pub write_octal : List ℕ → ℕ → ℕ → ℕ → List ℕ
unfolding write_field octal_text
write_octal block offset width value = write_field block offset width (octal_text width value)

unfoldable pub sum : List ℕ → ℕ
sum [] = 0
sum (b ∷ bs) = b + sum bs

unfoldable pub checksum_text : ℕ → List ℕ
unfolding to_octal pad_start
checksum_text n = pad_start 6 (to_octal n) ++ 0 ∷ 32 ∷ []

-- The header before its checksum.
unfoldable pub header_fields : List ℕ → ℕ → ℕ → List ℕ
unfolding write_field write_octal
header_fields name size typeflag =
    let block = write_field (replicate tar_block 0) 0 100 name in
    let block = write_octal block 100 8 tar_mode in
    let block = write_octal block 108 8 0 in
    let block = write_octal block 116 8 0 in
    let block = write_octal block 124 12 size in
    let block = write_octal block 136 12 0 in
    let block = set_bytes block 156 (typeflag ∷ []) in
    let block = write_field block 257 6 (codes "ustar") in
    let block = write_field block 263 2 (codes "00") in
    let block = write_field block 265 32 (codes "teamem") in
    write_field block 297 32 (codes "teamem")

unfoldable pub build_header : List ℕ → ℕ → ℕ → List ℕ
unfolding header_fields sum checksum_text set_bytes
build_header name size typeflag =
    let block = set_bytes (header_fields name size typeflag) 148 (replicate 8 32) in
    set_bytes block 148 (checksum_text (sum block))

-- `relPath.split('/')`
unfoldable pub split : List ℕ → List (List ℕ)
split [] = [] ∷ []
split (c ∷ s) =
    let rest = split s in
    if c == b'/'
    then [] ∷ rest
    else (elim rest [ [] ↦ (c ∷ []) ∷ [] | segment ∷ segments ↦ (c ∷ segment) ∷ segments ])

abbrev pub is_unsafe_segment : List ℕ → Bool
is_unsafe_segment s = codes_eq s [] || (codes_eq s (codes ".") || codes_eq s (codes ".."))

abbrev pub starts_with_slash : List ℕ → Bool
starts_with_slash [] = false
starts_with_slash (c ∷ s) = c == b'/'

abbrev pub ends_with_slash : List ℕ → Bool
ends_with_slash s = elim (last s) [ none ↦ false | some c ↦ c == b'/' ]

-- The error that `assertSafeRelPath` throws, if any.
unfoldable pub path_error : List ℕ → Option ArchiveError
unfolding split codes_eq
path_error s =
    if length s == 0
    then some empty_path
    else if ltb max_entry_path_bytes (length s)
    then some path_too_long
    else if starts_with_slash s || ends_with_slash s
    then some not_relative
    else if any (λ c. c == b'\\' || c == 0) s
    then some unsafe_character
    else if any is_unsafe_segment (split s)
    then some unsafe_segment
    else none

-- `Math.ceil(n / TAR_BLOCK) * TAR_BLOCK`
abbrev pub padded_length : ℕ → ℕ
padded_length n = (n + 511) / 512 * 512

abbrev pub padded : List ℕ → List ℕ
padded bytes = overlay bytes (replicate (padded_length (length bytes)) 0)

-- A header with its data.
unfoldable pub entry : List ℕ → ℕ → List ℕ → List ℕ
unfolding build_header overlay
entry name typeflag bytes = build_header (take 100 name) (length bytes) typeflag ++ padded bytes

unfoldable pub file_entries : SourceFile → List ℕ
unfolding entry
file_entries file =
    (if ltb 99 (length file.rel_path)
      then entry file.rel_path b'L' (file.rel_path ++ 0 ∷ [])
      else [])
    ++ entry file.rel_path b'0' file.content

abbrev pub end_of_archive : List ℕ
end_of_archive = replicate tar_block 0 ++ replicate tar_block 0

-- The loop over the files, with the paths that were seen.
unfoldable pub build_entries : List (List ℕ) → List SourceFile → Result ArchiveError (List ℕ)
unfolding path_error file_entries codes_eq
build_entries seen [] = ok end_of_archive
build_entries seen (file ∷ files) =
    let rest = build_entries (file.rel_path ∷ seen) files in
    elim (path_error file.rel_path) [
      | some e ↦ err e
      | none ↦
          if any (codes_eq file.rel_path) seen
          then err duplicate_path
          else (elim rest [ err e ↦ err e | ok bytes ↦ ok (file_entries file ++ bytes) ])
    ]

unfoldable pub build_okf_tar : List SourceFile → Result ArchiveError (List ℕ)
unfolding build_entries
build_okf_tar files = build_entries [] files
