-- ===== src/Export/Archive/Header.antt =====
-- About headers, export/archive.ts: what a reader finds in one.
use teamem_server.Prelude.{
  ℕ, ◌+◌, ◌≤◌, ◌<◌, ◌≡◌, refl, sym, ap, subst, ◌∙◌, inl, inr, zero, suc, true, false, List, [], ◌∷◌,
  ◌++◌, length, length-append, take, drop, ==_self, Bool-cases, All, All-take, arith, some,
}
use teamem_server.Concepts.Contract.{codes}
use teamem_server.Concepts.Merge.{codes_eq}
use teamem_server.Export.Archive.{
  replicate, overlay, set_bytes, write_octal, octal_text, checksum_text, sum, header_fields,
  build_header, tar_block, tar_mode,
}
use teamem_server.Export.Archive.Bytes.{
  slice, writes, Apart, slice-writes, drop-set_bytes, set_bytes-set_bytes, length-writes,
  length-set_bytes, All-writes, All-set_bytes, length-replicate,
}
use teamem_server.Export.Archive.Fields.{
  terminated, IsByte, terminated-IsByte, length-terminated, length-take_bound, octal-IsByte,
  zeros-IsByte, sum_bound, below-Fits, write_field-set_bytes, slice-field, take_whole, take_all,
  read_octal_whole, until_nul-take, is_zero-first_byte,
}
use teamem_server.Export.Archive.Octal.{
  octal_field, octal_text-Fits, checksum_text-Fits, length-octal_field, Fits,
}
use teamem_server.Export.Archive.Reader.{
  read_octal, until_nul, is_zero, first_byte, byte_sum, header_sum, is_ustar, read_header,
}

abbrev spaces : List ℕ
spaces = replicate 8 32

byte_sum-eq : (bytes : List ℕ) → sum bytes ≡ byte_sum bytes
unfolding sum byte_sum
byte_sum-eq [] = refl
byte_sum-eq (b ∷ bs) = ap (λ n. b + n) (byte_sum-eq bs)

sum-overlay :
    (bytes block : List ℕ)
    → length bytes ≤ length block
    → sum (overlay bytes block) ≡ sum bytes + byte_sum (drop (length bytes) block)
unfolding overlay sum
sum-overlay [] block h = omega (arith, byte_sum-eq block)
sum-overlay (b ∷ bs) [] h = absurd (omega arith)
sum-overlay (b ∷ bs) (c ∷ block) h = omega (arith, sum-overlay bs block (omega arith))

-- A sum is that of the bytes before a write, of what it writes, and of the bytes after it.
sum-set_bytes :
    (block : List ℕ) (offset : ℕ) (bytes : List ℕ)
    → offset + length bytes ≤ length block
    → sum (set_bytes block offset bytes)
      ≡ byte_sum (take offset block) + (sum bytes + byte_sum (drop (offset + length bytes) block))
unfolding set_bytes sum byte_sum
sum-set_bytes block zero bytes h =
    let from_start : length bytes ≡ 0 + length bytes = omega arith in
    sum-overlay bytes block (omega arith)
    ∙ ap (λ n. sum bytes + byte_sum (drop n block)) from_start
    ∙ omega arith
sum-set_bytes [] (suc offset) bytes h = absurd (omega arith)
sum-set_bytes (c ∷ block) (suc offset) bytes h =
    let next : suc offset + length bytes ≡ suc (offset + length bytes) = omega arith in
    ap (λ n. c + n) (sum-set_bytes block offset bytes (omega arith))
    ∙ ap (λ n. c + (byte_sum (take offset block) + (sum bytes + byte_sum (drop n (c ∷ block)))))
        (sym next)
    ∙ omega arith

header_sum-eq :
    (block : List ℕ) → 156 ≤ length block → sum (set_bytes block 148 spaces) ≡ header_sum block
unfolding sum
header_sum-eq block h = sum-set_bytes block 148 spaces h

length-octal_nul : (k n : ℕ) → length (octal_field k n ++ 0 ∷ []) ≡ k + 1
length-octal_nul k n =
    length-append (octal_field k n) (0 ∷ []) ∙ ap (λ m. m + 1) (length-octal_field k n)

module _ (name : List ℕ) (size typeflag : ℕ) where
  abbrev name_field : ℕ × List ℕ
  name_field = (0, terminated 100 name)

  abbrev mode_fields : List (ℕ × List ℕ)
  mode_fields =
      (100, terminated 8 (octal_text 8 tar_mode))
      ∷ (108, terminated 8 (octal_text 8 0))
      ∷ (116, terminated 8 (octal_text 8 0))
      ∷ []

  abbrev size_field : ℕ × List ℕ
  size_field = (124, terminated 12 (octal_text 12 size))

  abbrev last_fields : List (ℕ × List ℕ)
  last_fields =
      (257, terminated 6 (codes "ustar"))
      ∷ (263, terminated 2 (codes "00"))
      ∷ (265, terminated 32 (codes "teamem"))
      ∷ (297, terminated 32 (codes "teamem"))
      ∷ []

  abbrev middle_fields : List (ℕ × List ℕ)
  middle_fields = (136, terminated 12 (octal_text 12 0)) ∷ (156, typeflag ∷ []) ∷ last_fields

  abbrev all_fields : List (ℕ × List ℕ)
  all_fields = name_field ∷ mode_fields ++ size_field ∷ middle_fields

  header_fields-writes :
      header_fields name size typeflag ≡ writes all_fields (replicate tar_block 0)
  unfolding header_fields write_octal writes
  header_fields-writes = simp write_field-set_bytes refl

  last_fields-IsByte : All (λ w. All IsByte w.1) last_fields
  last_fields-IsByte = ground arith

  fields-IsByte :
      All IsByte name → Fits 11 size → IsByte typeflag → All (λ w. All IsByte w.1) all_fields
  fields-IsByte h fits flag = (
    terminated-IsByte 100 name h,
    (
      terminated-IsByte 8 (octal_text 8 tar_mode) (octal-IsByte 6 tar_mode refl),
      (
        terminated-IsByte 8 (octal_text 8 0) (octal-IsByte 6 0 refl),
        (
          terminated-IsByte 8 (octal_text 8 0) (octal-IsByte 6 0 refl),
          (
            terminated-IsByte 12 (octal_text 12 size) (octal-IsByte 10 size fits),
            (
              terminated-IsByte 12 (octal_text 12 0) (octal-IsByte 10 0 refl),
              ((flag, tt), last_fields-IsByte),
            ),
          ),
        ),
      ),
    ),
  )

  abbrev stamped : List ℕ
  stamped = set_bytes (header_fields name size typeflag) 148 spaces

  length-stamped : length stamped ≡ tar_block
  length-stamped =
      length-set_bytes (header_fields name size typeflag) 148 spaces
      ∙ ap length header_fields-writes
      ∙ length-writes all_fields (replicate tar_block 0)
      ∙ length-replicate tar_block 0

  stamped-sum : All IsByte name → Fits 11 size → IsByte typeflag → Fits 6 (sum stamped)
  stamped-sum h fits flag =
      let zeros = zeros-IsByte tar_block in
      let fields =
        All-writes IsByte all_fields (replicate tar_block 0) (fields-IsByte h fits flag) zeros in
      let bytes =
        All-set_bytes IsByte (header_fields name size typeflag) 148 spaces (ground arith)
          (subst (All IsByte) (sym header_fields-writes) fields) in
      let bound = sum_bound stamped bytes in
      let whole = length-stamped in below-Fits (sum stamped) (omega arith)

  abbrev checksum : ℕ
  checksum = sum stamped

  abbrev block : List ℕ
  block = build_header name size typeflag

  stamped-writes : stamped ≡ set_bytes (writes all_fields (replicate tar_block 0)) 148 spaces
  stamped-writes = ap (λ b. set_bytes b 148 spaces) header_fields-writes

  abbrev before_typeflag : List (ℕ × List ℕ)
  before_typeflag =
      name_field ∷ mode_fields ++ size_field ∷ (136, terminated 12 (octal_text 12 0)) ∷ []

  later-Apart : (o w : ℕ) → o + w ≤ 257 → All (Apart o w) last_fields
  later-Apart o w h =
      (inr (omega arith), (inr (omega arith), (inr (omega arith), (inr (omega arith), tt))))

  middle-Apart : (o w : ℕ) → o + w ≤ 136 → All (Apart o w) middle_fields
  middle-Apart o w h = (inr (omega arith), (inr (omega arith), later-Apart o w (omega arith)))

  name-Apart : All (Apart 0 100) (mode_fields ++ size_field ∷ middle_fields)
  name-Apart = (
    inr (omega arith),
    (inr (omega arith), (inr (omega arith), (inr (omega arith), middle-Apart 0 100 (omega arith)))),
  )

  module _ (fits : Fits 11 size) (sum_fits : Fits 6 checksum) where
    length-checksum_text : length (checksum_text checksum) ≡ 8
    length-checksum_text =
        ap length (checksum_text-Fits checksum sum_fits)
        ∙ length-append (octal_field 6 checksum) (0 ∷ 32 ∷ [])
        ∙ ap (λ n. n + 2) (length-octal_field 6 checksum)

    -- A field away from the checksum is the one that was written.
    slice-block :
        (o w : ℕ)
        → Apart o w (148, spaces)
        → slice o w block ≡ slice o w (writes all_fields (replicate tar_block 0))
    unfolding build_header writes
    slice-block o w apart =
        let text = length-checksum_text in
        let apart_text : Apart o w (148, checksum_text checksum) = (elim apart [
          | inl before ↦ inl (omega arith)
          | inr after ↦ inr after
        ]) in
        slice-writes o w ((148, spaces) ∷ (148, checksum_text checksum) ∷ [])
          (header_fields name size typeflag) (apart, (apart_text, tt))
        ∙ ap (slice o w) header_fields-writes

    octal_size : terminated 12 (octal_text 12 size) ≡ octal_field 11 size ++ 0 ∷ []
    octal_size =
        ap (terminated 12) (octal_text-Fits 10 size fits)
        ∙ ap (λ l. l ++ 0 ∷ []) (take_all 11 (octal_field 11 size) (length-octal_field 11 size))

    length_written :
        (ws : List (ℕ × List ℕ)) → length (writes ws (replicate tar_block 0)) ≡ tar_block
    length_written ws = length-writes ws (replicate tar_block 0) ∙ length-replicate tar_block 0

    read_size : read_octal 0 (slice 124 12 block) ≡ size
    unfolding writes
    read_size =
        let field = length-terminated 12 (octal_text 12 size) in
        let room = length_written (name_field ∷ mode_fields) in
        ap (read_octal 0) (
          slice-block 124 12 (inr (omega arith))
          ∙ slice-field 124 12 (terminated 12 (octal_text 12 size))
              (writes (name_field ∷ mode_fields) (replicate tar_block 0)) middle_fields
              (omega arith) (middle-Apart 124 12 (omega arith))
          ∙ ap
              (λ l. take 12 (
                l
                ++ drop (124 + length l)
                    (writes (name_field ∷ mode_fields) (replicate tar_block 0))))
              octal_size
          ∙ take_whole 12 (octal_field 11 size ++ 0 ∷ [])
              (drop (124 + length (octal_field 11 size ++ 0 ∷ []))
                (writes (name_field ∷ mode_fields) (replicate tar_block 0)))
              (length-octal_nul 11 size))
        ∙ read_octal_whole 11 size [] fits

    read_typeflag : first_byte (slice 156 1 block) ≡ typeflag
    unfolding writes
    read_typeflag =
        let room = length_written before_typeflag in
        ap first_byte (
          slice-block 156 1 (inl (omega arith))
          ∙ slice-field 156 1 (typeflag ∷ []) (writes before_typeflag (replicate tar_block 0))
              last_fields (omega arith) (later-Apart 156 1 (omega arith)))

    read_name : All (λ b. ¬ (b ≡ 0)) name → until_nul (slice 0 100 block) ≡ take 99 name
    unfolding writes
    read_name h =
        let field = length-terminated 100 name in
        let room = length-replicate tar_block 0 in
        let short = length-take_bound 99 name in
        ap until_nul (
          slice-block 0 100 (inr (omega arith))
          ∙ slice-field 0 100 (terminated 100 name) (replicate tar_block 0)
              (mode_fields ++ size_field ∷ middle_fields) (omega arith) name-Apart)
        ∙ until_nul-take 100 (take 99 name)
            (drop (0 + length (terminated 100 name)) (replicate tar_block 0))
            (All-take (λ b. ¬ (b ≡ 0)) 99 name h) (omega arith)

    read_checksum : read_octal 0 (slice 148 8 block) ≡ header_sum block
    unfolding build_header
    read_checksum =
        let room = length-stamped in
        let text = length-checksum_text in
        let overwritten : set_bytes block 148 spaces ≡ stamped =
          (set_bytes-set_bytes stamped 148 spaces (checksum_text checksum) (sym text)
            ∙ set_bytes-set_bytes (header_fields name size typeflag) 148 spaces spaces refl) in
        ap (λ l. read_octal 0 (take 8 l))
          (drop-set_bytes stamped 148 (checksum_text checksum) (omega arith))
        ∙ ap (read_octal 0) (
            take_whole 8 (checksum_text checksum)
              (drop (148 + length (checksum_text checksum)) stamped) text)
        ∙ ap (read_octal 0) (checksum_text-Fits checksum sum_fits)
        ∙ read_octal_whole 6 checksum (32 ∷ []) sum_fits
        ∙ sym (ap sum overwritten)
        ∙ header_sum-eq block
            (let whole = length-set_bytes stamped 148 (checksum_text checksum) in omega arith)

    abbrev before_magic : List (ℕ × List ℕ)
    before_magic =
        name_field ∷ mode_fields
        ++ size_field ∷ (136, terminated 12 (octal_text 12 0)) ∷ (156, typeflag ∷ []) ∷ []

    abbrev after_magic : List (ℕ × List ℕ)
    after_magic =
        (263, terminated 2 (codes "00"))
        ∷ (265, terminated 32 (codes "teamem"))
        ∷ (297, terminated 32 (codes "teamem"))
        ∷ []

    read_magic : slice 257 5 block ≡ codes "ustar"
    unfolding writes
    read_magic =
        let room = length_written before_magic in
        slice-block 257 5 (inl (omega arith))
        ∙ slice-field 257 5 (terminated 6 (codes "ustar"))
            (writes before_magic (replicate tar_block 0)) after_magic (omega arith)
            (inr (omega arith), (inr (omega arith), (inr (omega arith), tt)))

    block-is_ustar : is_ustar block ≡ true
    unfolding codes_eq
    block-is_ustar = ap (λ l. codes_eq l (codes "ustar")) read_magic

    pub read_header-build_header :
        All (λ b. ¬ (b ≡ 0)) name
        → read_header block
          ≡ some (record { name = take 99 name; size = size; typeflag = typeflag })
    unfolding read_header
    read_header-build_header h =
        rw
          (
            read_checksum,
            read_name h,
            read_size,
            read_typeflag,
            block-is_ustar,
            ==_self (header_sum block),
          )
          refl

pub length-build_header :
    (name : List ℕ) (size typeflag : ℕ) → length (build_header name size typeflag) ≡ tar_block
unfolding build_header
length-build_header name size typeflag =
    length-set_bytes (stamped name size typeflag) 148 (checksum_text (checksum name size typeflag))
    ∙ length-stamped name size typeflag

-- A reader finds in a header the name, up to its 99 bytes, the size and the type.
pub read_header_lem :
    (name : List ℕ) (size typeflag : ℕ)
    → All IsByte name
    → All (λ b. ¬ (b ≡ 0)) name
    → size < 8589934592
    → IsByte typeflag
    → read_header (build_header name size typeflag)
      ≡ some (record { name = take 99 name; size = size; typeflag = typeflag })
read_header_lem name size typeflag h nonzero small flag =
    let fits : Fits 11 size = omega arith in
    read_header-build_header name size typeflag fits (stamped-sum name size typeflag h fits flag)
      nonzero

pub is_zero-build_header :
    (name : List ℕ) (size typeflag : ℕ)
    → All IsByte name
    → size < 8589934592
    → IsByte typeflag
    → ¬ (typeflag ≡ 0)
    → is_zero (build_header name size typeflag) ≡ false
is_zero-build_header name size typeflag h small flag nonzero =
    elim (Bool-cases (is_zero (build_header name size typeflag))) [
      | inl zeros ↦
          let fits : Fits 11 size = omega arith in
          absurd (
            nonzero (
              sym
                (read_typeflag name size typeflag fits (stamped-sum name size typeflag h fits flag))
              ∙ is_zero-first_byte 156 (build_header name size typeflag) zeros))
      | inr found ↦ found
    ]
