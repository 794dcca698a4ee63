-- ===== src/Export/Archive/Fields.antt =====
-- About the fields of a header, export/archive.ts.
use mathlib.Core.List.{append_assoc, append-nil}
use teamem_server.Prelude.{
  ℕ, zero, suc, ◌+◌, ◌-◌, ◌*◌, ◌/◌, ◌%◌, ◌≤◌, ◌<◌, ◌≡◌, refl, sym, ap, subst, ◌∙◌, true, false,
  List, [], ◌∷◌, ◌++◌, length, length-append, take, drop, leb, ltb, ◌==◌, ◌&&◌, All, All-append,
  All-take, arith,
}
use teamem_server.Export.Archive.{replicate, set_bytes, write_field, octal_text, sum}
use teamem_server.Export.Archive.Bytes.{
  slice, writes, Apart, slice-writes, drop-set_bytes, take-append,
}
use teamem_server.Export.Archive.Octal.{octal_field, octal_text-Fits, octal_field-bytes, Fits}
use teamem_server.Export.Archive.Reader.{read_octal, until_nul, is_zero, first_byte}

-- A field's text with the NUL after it.
abbrev pub terminated : ℕ → List ℕ → List ℕ
terminated width value = take (width - 1) value ++ 0 ∷ []

overlay_twice :
    (block : List ℕ) (bs cs : List ℕ)
    → set_bytes (set_bytes block 0 bs) (length bs) cs ≡ set_bytes block 0 (bs ++ cs)
unfolding set_bytes
overlay_twice block [] cs = refl
overlay_twice [] (b ∷ bs) cs = refl
overlay_twice (c ∷ block) (b ∷ bs) cs = ap (λ l. b ∷ l) (overlay_twice block bs cs)

-- Two writes, one after the other, are one.
set_bytes-append :
    (block : List ℕ) (offset : ℕ) (bs cs : List ℕ)
    → set_bytes (set_bytes block offset bs) (offset + length bs) cs
      ≡ set_bytes block offset (bs ++ cs)
unfolding set_bytes
set_bytes-append block zero bs cs =
    let from_start : 0 + length bs ≡ length bs = omega arith in
    ap (λ n. set_bytes (set_bytes block 0 bs) n cs) from_start ∙ overlay_twice block bs cs
set_bytes-append [] (suc offset) bs cs =
    let next : suc offset + length bs ≡ suc (offset + length bs) = omega arith in
    ap (λ n. set_bytes [] n cs) next
set_bytes-append (c ∷ block) (suc offset) bs cs =
    let next : suc offset + length bs ≡ suc (offset + length bs) = omega arith in
    ap (λ n. set_bytes (c ∷ set_bytes block offset bs) n cs) next
    ∙ ap (λ l. c ∷ l) (set_bytes-append block offset bs cs)

pub write_field-set_bytes :
    (block : List ℕ) (offset width : ℕ) (value : List ℕ)
    → write_field block offset width value ≡ set_bytes block offset (terminated width value)
unfolding write_field
write_field-set_bytes block offset width value =
    set_bytes-append block offset (take (width - 1) value) (0 ∷ [])

abbrev pub IsByte : ℕ → Type 0
IsByte b = b < 256

pub terminated-IsByte :
    (width : ℕ) (value : List ℕ) → All IsByte value → All IsByte (terminated width value)
terminated-IsByte width value h =
    All-append IsByte (take (width - 1) value) (0 ∷ []) (All-take IsByte (width - 1) value h)
      (omega arith, tt)

pub length-take_bound : (n : ℕ) (s : List ℕ) → length (take n s) ≤ n
length-take_bound zero s = omega arith
length-take_bound (suc n) [] = omega arith
length-take_bound (suc n) (b ∷ s) = omega (arith, length-take_bound n s)

pub length-terminated :
    (width : ℕ) (value : List ℕ) → length (terminated width value) ≤ width - 1 + 1
length-terminated width value =
    omega
      (arith, length-append (take (width - 1) value) (0 ∷ []), length-take_bound (width - 1) value)

pub octal-IsByte : (k n : ℕ) → Fits (suc k) n → All IsByte (octal_text (suc (suc k)) n)
octal-IsByte k n fits = rw (octal_text-Fits k n fits) (octal_field-bytes (suc k) n)

pub zeros-IsByte : (n : ℕ) → All IsByte (replicate n 0)
zeros-IsByte zero = tt
zeros-IsByte (suc n) = (omega arith, zeros-IsByte n)

pub sum_bound : (bytes : List ℕ) → All IsByte bytes → sum bytes ≤ 255 * length bytes
unfolding sum
sum_bound [] h = omega arith
sum_bound (b ∷ bs) h = let others = sum_bound bs h.1 in let first = h.0 in omega arith

pub below-Fits : (n : ℕ) → n < 262144 → Fits 6 n
below-Fits n h = omega arith

-- A field that no later write touches.
pub slice-field :
    (o w : ℕ) (bytes block : List ℕ) (ws : List (ℕ × List ℕ))
    → o + length bytes ≤ length block
    → All (Apart o w) ws
    → slice o w (writes ws (set_bytes block o bytes))
      ≡ take w (bytes ++ drop (o + length bytes) block)
slice-field o w bytes block ws fits apart =
    slice-writes o w ws (set_bytes block o bytes) apart
    ∙ ap (take w) (drop-set_bytes block o bytes fits)

pub take_whole : (w : ℕ) (xs ys : List ℕ) → length xs ≡ w → take w (xs ++ ys) ≡ xs
take_whole w xs ys h = subst (λ n. take n (xs ++ ys) ≡ xs) h (take-append xs ys)

pub take_all : (w : ℕ) (xs : List ℕ) → length xs ≡ w → take w xs ≡ xs
take_all w xs h = ap (take w) (sym (append-nil xs)) ∙ take_whole w xs [] h

scale : ℕ → ℕ → ℕ
scale zero acc = acc
scale (suc k) acc = scale k acc * 8

read_digit :
    (acc n : ℕ) (rest : List ℕ)
    → read_octal (acc + n / 8) ((b'0' + n % 8) ∷ rest) ≡ read_octal (acc * 8 + n) rest
unfolding read_octal
read_digit acc n rest =
    let is_digit : (leb b'0' (b'0' + n % 8) && ltb (b'0' + n % 8) b'8') ≡ true = ground arith in
    let next : (acc + n / 8) * 8 + (b'0' + n % 8 - b'0') ≡ acc * 8 + n = ground arith in
    rw is_digit (ap (λ m. read_octal m rest) next)

read_octal-octal_field :
    (k acc n : ℕ) (rest : List ℕ)
    → Fits k n
    → read_octal acc (octal_field k n ++ rest) ≡ read_octal (scale k acc + n) rest
unfolding octal_field scale
read_octal-octal_field zero acc n rest fits = ap (λ m. read_octal m rest) (omega arith)
read_octal-octal_field (suc k) acc n rest fits =
    ap (read_octal acc) (append_assoc (octal_field k (n / 8)) ((b'0' + n % 8) ∷ []) rest)
    ∙ read_octal-octal_field k acc (n / 8) ((b'0' + n % 8) ∷ rest) fits
    ∙ read_digit (scale k acc) n rest

scale_zero : (k : ℕ) → scale k 0 ≡ 0
unfolding scale
scale_zero zero = refl
scale_zero (suc k) = omega (arith, scale_zero k)

-- Octal digits and a NUL are read as the number.
pub read_octal_whole :
    (k n : ℕ) (rest : List ℕ) → Fits k n → read_octal 0 (octal_field k n ++ 0 ∷ rest) ≡ n
unfolding read_octal
read_octal_whole k n rest fits =
    read_octal-octal_field k 0 n (0 ∷ rest) fits ∙ (let none_before = scale_zero k in omega arith)

-- The first zero byte ends a text.
pub until_nul-take :
    (w : ℕ) (xs ys : List ℕ)
    → All (λ b. ¬ (b ≡ 0)) xs
    → length xs < w
    → until_nul (take w ((xs ++ 0 ∷ []) ++ ys)) ≡ xs
unfolding until_nul
until_nul-take zero xs ys h k = absurd (omega arith)
until_nul-take (suc w) [] ys h k = refl
until_nul-take (suc w) (x ∷ xs) ys h k =
    let nonzero : (x == 0) ≡ false = (let apart = h.0 in ground arith) in
    rw nonzero (ap (λ l. x ∷ l) (until_nul-take w xs ys h.1 (omega arith)))

pub is_zero-first_byte :
    (n : ℕ) (block : List ℕ) → is_zero block ≡ true → first_byte (slice n 1 block) ≡ 0
unfolding is_zero
is_zero-first_byte zero [] h = refl
is_zero-first_byte (suc n) [] h = refl
is_zero-first_byte zero (b ∷ bs) h = ground arith
is_zero-first_byte (suc n) (b ∷ bs) h = is_zero-first_byte n bs (ground arith)
