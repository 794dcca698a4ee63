-- ===== src/Redact/Scan.antt =====
-- About `stripString` of security/private-tags.ts: the same removal as one walk without positions.
use teamem_server.Prelude.{
  none-ne-some, some-ne-none, some-injective, ℕ, zero, suc, ◌+◌, ◌-◌, ◌≤◌, ◌<◌, ◌⊎◌, ◌≡◌, refl, sym,
  ap, ◌∙◌, inl, inr, true, false, none, some, List, [], ◌∷◌, ◌++◌, take, drop, length, arith,
  Option-cases, Bool-cases, if◌then◌else◌,
}
use mathlib.Core.List.{append-nil}
use teamem_server.Redact.{open_tag, close_tag, starts_with, index_of, strip_from, strip_string}

pub data Mode : Type 0 where
  outside inside : Mode

-- Outside of a section characters are kept up to the next opening tag; inside they are dropped up to
-- the next closing tag. The number is of characters of a tag that are still to be passed over.
unfoldable pub scan : Mode → ℕ → List ℕ → List ℕ
unfolding starts_with
scan mode k [] = []
scan mode (suc k) (c ∷ s) = scan mode k s
scan outside zero (c ∷ s) =
    let kept = c ∷ scan outside zero s in
    let entered = scan inside 8 s in if starts_with open_tag (c ∷ s) then entered else kept
scan inside zero (c ∷ s) =
    let dropped = scan inside zero s in
    let left = scan outside 9 s in if starts_with close_tag (c ∷ s) then left else dropped

scan-drop : (mode : Mode) (k : ℕ) (s : List ℕ) → scan mode k s ≡ scan mode 0 (drop k s)
unfolding scan
scan-drop mode zero s = refl
scan-drop mode (suc k) [] = refl
scan-drop mode (suc k) (c ∷ s) = scan-drop mode k s

module _ (tag : List ℕ) where
  first_none :
      (c : ℕ) (s : List ℕ)
      → index_of tag (c ∷ s) ≡ none
      → (starts_with tag (c ∷ s) ≡ false) × (index_of tag s ≡ none)
  unfolding index_of
  first_none c s h = elim (Bool-cases (starts_with tag (c ∷ s))) [
    | inl here ↦ absurd (some-ne-none (rw here at h))
    | inr not_here ↦ elim (Option-cases (index_of tag s)) [
      | inl nowhere ↦ (not_here, nowhere)
      | inr (i, there) ↦ absurd (some-ne-none (rw (not_here, there) at h))
    ]
  ]

  first_some :
      (c : ℕ) (s : List ℕ) (i : ℕ)
      → index_of tag (c ∷ s) ≡ some i
      → ((starts_with tag (c ∷ s) ≡ true) × (i ≡ 0))
        ⊎ ((j : ℕ) × (starts_with tag (c ∷ s) ≡ false) × (index_of tag s ≡ some j) × (i ≡ suc j))
  unfolding index_of
  first_some c s i h = elim (Bool-cases (starts_with tag (c ∷ s))) [
    | inl here ↦ inl (here, sym (some-injective (rw here at h)))
    | inr not_here ↦ elim (Option-cases (index_of tag s)) [
      | inl nowhere ↦ absurd (none-ne-some (rw (not_here, nowhere) at h))
      | inr (j, there) ↦ inr (j, not_here, there, sym (some-injective (rw (not_here, there) at h)))
    ]
  ]

keep :
    (c : ℕ) (s : List ℕ)
    → starts_with open_tag (c ∷ s) ≡ false
    → scan outside 0 (c ∷ s) ≡ c ∷ scan outside 0 s
unfolding scan
keep c s h = rw h refl

enter :
    (c : ℕ) (s : List ℕ)
    → starts_with open_tag (c ∷ s) ≡ true
    → scan outside 0 (c ∷ s) ≡ scan inside 0 (drop 8 s)
unfolding scan
enter c s h = rw h (scan-drop inside 8 s)

omit :
    (c : ℕ) (s : List ℕ)
    → starts_with close_tag (c ∷ s) ≡ false
    → scan inside 0 (c ∷ s) ≡ scan inside 0 s
unfolding scan
omit c s h = rw h refl

leave :
    (c : ℕ) (s : List ℕ)
    → starts_with close_tag (c ∷ s) ≡ true
    → scan inside 0 (c ∷ s) ≡ scan outside 0 (drop 9 s)
unfolding scan
leave c s h = rw h (scan-drop outside 9 s)

scan_plain : (s : List ℕ) → index_of open_tag s ≡ none → scan outside 0 s ≡ s
unfolding scan
scan_plain [] h = refl
scan_plain (c ∷ s) h =
    let (not_here, nowhere) = first_none open_tag c s h in
    keep c s not_here ∙ ap (λ l. c ∷ l) (scan_plain s nowhere)

scan_unclosed : (s : List ℕ) → index_of close_tag s ≡ none → scan inside 0 s ≡ []
unfolding scan
scan_unclosed [] h = refl
scan_unclosed (c ∷ s) h =
    let (not_here, nowhere) = first_none close_tag c s h in
    omit c s not_here ∙ scan_unclosed s nowhere

drop_more : (n j c : ℕ) (s : List ℕ) → drop (suc j + n) (c ∷ s) ≡ drop (j + n) s
drop_more n j c s =
    let one_more : suc j + n ≡ suc (j + n) = omega arith in ap (λ k. drop k (c ∷ s)) one_more

scan_open :
    (s : List ℕ) (i : ℕ)
    → index_of open_tag s ≡ some i
    → scan outside 0 s ≡ take i s ++ scan inside 0 (drop (i + 9) s)
unfolding index_of
scan_open [] i h = absurd (none-ne-some h)
scan_open (c ∷ s) i h = elim (first_some open_tag c s i h) [
  | inl (here, at_once) ↦ rw at_once (enter c s here)
  | inr (j, not_here, there, next) ↦ rw next (
      keep c s not_here
      ∙ ap (λ l. c ∷ l) (scan_open s j there)
      ∙ ap (λ l. c ∷ (take j s ++ scan inside 0 l)) (sym (drop_more 9 j c s)))
]

scan_close :
    (s : List ℕ) (j : ℕ)
    → index_of close_tag s ≡ some j
    → scan inside 0 s ≡ scan outside 0 (drop (j + 10) s)
unfolding index_of
scan_close [] j h = absurd (none-ne-some h)
scan_close (c ∷ s) j h = elim (first_some close_tag c s j h) [
  | inl (here, at_once) ↦ rw at_once (leave c s here)
  | inr (k, not_here, there, next) ↦
      rw next
        (omit c s not_here ∙ scan_close s k there ∙ ap (scan outside 0) (sym (drop_more 10 k c s)))
]

length-drop : (k : ℕ) (s : List ℕ) → length (drop k s) ≤ length s - k
length-drop zero s = omega arith
length-drop (suc k) [] = omega arith
length-drop (suc k) (c ∷ s) = omega (arith, length-drop k s)

nonempty : (s : List ℕ) (i : ℕ) → index_of open_tag s ≡ some i → 1 ≤ length s
unfolding index_of
nonempty [] i h = absurd (none-ne-some h)
nonempty (c ∷ s) i h = omega arith

strip_from-scan : (n : ℕ) (s : List ℕ) → length s < n → strip_from n s ≡ scan outside 0 s
unfolding strip_from
strip_from-scan zero s h = absurd (omega (arith, h))
strip_from-scan (suc n) s h = elim (Option-cases (index_of open_tag s)) [
  | inl plain ↦ rw (plain, strip_from) (sym (scan_plain s plain))
  | inr (i, opened) ↦
      let rest = drop (i + 9) s in
      elim (Option-cases (index_of close_tag rest)) [
        | inl unclosed ↦
            rw (opened, strip_from, unclosed)
              (sym (
                scan_open s i opened
                ∙ ap (λ l. take i s ++ l) (scan_unclosed rest unclosed)
                ∙ append-nil (take i s)))
        | inr (j, closed) ↦
            rw (opened, strip_from, closed)
              (ap (λ l. take i s ++ l)
                  (strip_from-scan n (drop (j + 10) rest) (
                      omega (
                        arith,
                        h,
                        nonempty s i opened,
                        length-drop (j + 10) rest,
                        length-drop (i + 9) s,
                      ))
                    ∙ sym (scan_close rest j closed))
                ∙ sym (scan_open s i opened))
      ]
]

-- `stripString` does what the walk does: it keeps the text up to an opening tag and after the next
-- closing tag, again and again, and nothing after an opening tag that is not closed. Its bound on
-- the passes is always enough.
pub strip_string-scan : (s : List ℕ) → strip_string s ≡ scan outside 0 s
unfolding strip_string
strip_string-scan s = strip_from-scan (suc (length s)) s (omega arith)
