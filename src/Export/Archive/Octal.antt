-- ===== src/Export/Archive/Octal.antt =====
-- About octal fields, export/archive.ts.
use mathlib.Core.List.{append_assoc, append-nil}
use teamem_server.Prelude.{
  ℕ, zero, suc, ◌+◌, ◌-◌, ◌/◌, ◌%◌, ◌≤◌, ◌<◌, ◌≡◌, refl, sym, ap, ◌∙◌, inl, inr, List, [], ◌∷◌,
  ◌++◌, length, length-append, ltb, if◌then◌else◌, Bool-cases, All, All-append, arith,
}
use teamem_server.Export.Archive.{
  replicate, octal_digits, to_octal, pad_start, pad_end, slice_last, octal_text, checksum_text,
}

-- Just `k` digits of a number.
unfoldable pub octal_field : ℕ → ℕ → List ℕ
octal_field zero n = []
octal_field (suc k) n = octal_field k (n / 8) ++ (b'0' + n % 8) ∷ []

-- The number has at most `k` octal digits.
abbrev pub Fits : ℕ → ℕ → Type 0
Fits zero n = n ≡ 0
Fits (suc k) n = Fits k (n / 8)

pub length-octal_field : (k n : ℕ) → length (octal_field k n) ≡ k
unfolding octal_field
length-octal_field zero n = refl
length-octal_field (suc k) n = omega (
  arith,
  length-append {0} (octal_field k (n / 8)) ((b'0' + n % 8) ∷ []),
  length-octal_field k (n / 8),
)

octal_field-zero : (k : ℕ) → octal_field k 0 ≡ replicate k b'0'
unfolding octal_field
octal_field-zero zero = refl
octal_field-zero (suc k) = ap (λ l. l ++ b'0' ∷ []) (octal_field-zero k) ∙ replicate_snoc k
  where
    replicate_snoc : (n : ℕ) → replicate n b'0' ++ b'0' ∷ [] ≡ replicate (suc n) b'0'
    replicate_snoc zero = refl
    replicate_snoc (suc n) = ap (λ l. b'0' ∷ l) (replicate_snoc n)

pad_start_snoc : (k d : ℕ) (s : List ℕ) → pad_start (suc k) (s ++ d ∷ []) ≡ pad_start k s ++ d ∷ []
unfolding pad_start
pad_start_snoc k d s =
    let one_more : length (s ++ d ∷ []) ≡ length s + 1 = length-append s (d ∷ []) in
    let same : suc k - length (s ++ d ∷ []) ≡ k - length s = omega (arith, one_more) in
    ap (λ n. replicate n b'0' ++ (s ++ d ∷ [])) same
    ∙ sym (append_assoc (replicate (k - length s) b'0') s (d ∷ []))

pad_start_one : (k d : ℕ) → pad_start (suc k) (d ∷ []) ≡ replicate k b'0' ++ d ∷ []
unfolding pad_start
pad_start_one k d =
    let same : suc k - length (d ∷ []) ≡ k = omega arith in
    ap (λ n. replicate n b'0' ++ d ∷ []) same

pad_start-octal_digits :
    (fuel k n : ℕ)
    → n < fuel
    → Fits (suc k) n
    → pad_start (suc k) (octal_digits fuel n) ≡ octal_field (suc k) n
unfolding octal_digits octal_field
pad_start-octal_digits zero k n h fits = absurd (omega arith)
pad_start-octal_digits (suc fuel) k n h fits = elim (Bool-cases (ltb n 8)) [
  | inl small ↦
      let no_more : n / 8 ≡ 0 = ground arith in
      let itself : n % 8 ≡ n = ground arith in
      rw small (
        rw (no_more, itself)
          (pad_start_one k (b'0' + n) ∙ ap (λ l. l ++ (b'0' + n) ∷ []) (sym (octal_field-zero k))))
  | inr large ↦
      rw large (longer fuel k n (ground arith) (ground arith) fits (pad_start-octal_digits fuel))
]
  where
    longer :
        (fuel k n : ℕ)
        → n / 8 < fuel
        → 8 ≤ n
        → Fits (suc k) n
        → ((k m : ℕ)
            → m < fuel
            → Fits (suc k) m
            → pad_start (suc k) (octal_digits fuel m) ≡ octal_field (suc k) m)
        → pad_start (suc k) (octal_digits fuel (n / 8) ++ (b'0' + n % 8) ∷ [])
          ≡ octal_field k (n / 8) ++ (b'0' + n % 8) ∷ []
    longer fuel zero n h large fits ih = absurd (omega arith)
    longer fuel (suc k) n h large fits ih =
        pad_start_snoc (suc k) (b'0' + n % 8) (octal_digits fuel (n / 8))
        ∙ ap (λ l. l ++ (b'0' + n % 8) ∷ []) (ih k (n / 8) h fits)

slice_last_whole : (k : ℕ) (s : List ℕ) → length s ≡ k → slice_last k s ≡ s
unfolding slice_last
slice_last_whole k s h = let none_off : length s - k ≡ 0 = omega arith in rw none_off refl

pad_end_whole : (k : ℕ) (s : List ℕ) → length s ≡ k → pad_end k s ≡ s
unfolding pad_end
pad_end_whole k s h = let none_more : k - length s ≡ 0 = omega arith in rw none_more (append-nil s)

digit_count : (k : ℕ) → (if ltb (suc (suc k) - 1) 1 then 1 else suc (suc k) - 1) ≡ suc k
digit_count k = ground arith

pub octal_text-Fits :
    (k n : ℕ) → Fits (suc k) n → octal_text (suc (suc k)) n ≡ octal_field (suc k) n
unfolding octal_text to_octal
octal_text-Fits k n fits =
    let padded = pad_start-octal_digits (suc n) k n (omega arith) fits in
    let whole : length (octal_field (suc k) n) ≡ suc k = length-octal_field (suc k) n in
    rw (digit_count k, padded, slice_last_whole (suc k) (octal_field (suc k) n) whole)
      (pad_end_whole (suc k) (octal_field (suc k) n) whole)

pub checksum_text-Fits : (n : ℕ) → Fits 6 n → checksum_text n ≡ octal_field 6 n ++ 0 ∷ 32 ∷ []
unfolding checksum_text to_octal
checksum_text-Fits n fits =
    ap (λ l. l ++ 0 ∷ 32 ∷ []) (pad_start-octal_digits (suc n) 5 n (omega arith) fits)

pub octal_field-bytes : (k n : ℕ) → All (λ b. b < 256) (octal_field k n)
unfolding octal_field
octal_field-bytes zero n = tt
octal_field-bytes (suc k) n =
    All-append (λ b. b < 256) (octal_field k (n / 8)) ((b'0' + n % 8) ∷ [])
      (octal_field-bytes k (n / 8)) (omega arith, tt)
