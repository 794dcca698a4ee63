-- ===== src/Table/Collation.antt =====
-- An order on texts that a database may have: by code points, as the collation "C" of PostgreSQL. It
-- shows that what the listings assume of `lt` can be met.
use Prim.Native.String.{String}
use text.Mathlib.TextEquality.{Char-path}
use teamem_server.Prelude.{
  ℕ, ◌==◌, ◌≡◌, refl, sym, ◌∙◌, ◌⊎◌, inl, inr, Bool, true, false, ◌&&◌, ◌||◌, List, [], ◌∷◌, arith,
  ltb, str_eq, str_eq_iff, Bool-cases, true-ne-false,
}
use teamem_server.Concepts.Contract.{codes}
use teamem_server.Table.Cursor.{IsCollation}

lex_lt : List ℕ → List ℕ → Bool
lex_lt xs [] = false
lex_lt [] (y ∷ ys) = true
lex_lt (x ∷ xs) (y ∷ ys) = ltb x y || (x == y && lex_lt xs ys)

unfoldable pub text_lt : String → String → Bool
unfolding lex_lt
text_lt s t = lex_lt (codes s) (codes t)

lex_lt_irrefl : (xs : List ℕ) → lex_lt xs xs ≡ false
unfolding lex_lt
lex_lt_irrefl [] = refl
lex_lt_irrefl (x ∷ xs) = ground (arith, lex_lt_irrefl xs)

lex_lt_trans : (xs ys zs : List ℕ) → lex_lt xs ys ≡ true → lex_lt ys zs ≡ true → lex_lt xs zs ≡ true
unfolding lex_lt
lex_lt_trans xs [] zs h e = absurd (true-ne-false (sym h))
lex_lt_trans xs (y ∷ ys) [] h e = absurd (true-ne-false (sym e))
lex_lt_trans [] (y ∷ ys) (z ∷ zs) h e = refl
lex_lt_trans (x ∷ xs) (y ∷ ys) (z ∷ zs) h e = ground (arith, lex_lt_trans xs ys zs)

lex_lt_total : (xs ys : List ℕ) → (xs ≡ ys) ⊎ ((lex_lt xs ys ≡ true) ⊎ (lex_lt ys xs ≡ true))
unfolding lex_lt
lex_lt_total [] [] = inl refl
lex_lt_total [] (y ∷ ys) = inr (inl refl)
lex_lt_total (x ∷ xs) [] = inr (inr refl)
lex_lt_total (x ∷ xs) (y ∷ ys) = elim (Bool-cases (ltb x y)) [
  | inl less ↦ inr (inl (ground arith))
  | inr not_less ↦ elim (Bool-cases (ltb y x)) [
    | inl more ↦ inr (inr (ground arith))
    | inr same ↦
        let e : x ≡ y = ground arith in
        elim (lex_lt_total xs ys) [
          | inl d ↦ inl (cc)
          | inr (inl h) ↦ inr (inl (ground arith))
          | inr (inr h) ↦ inr (inr (ground arith))
        ]
  ]
]

codes_injective : (s t : String) → codes s ≡ codes t → s ≡ t
codes_injective String.[] String.[] h = refl
codes_injective String.[] (String.◌∷◌ d t) h = cc
codes_injective (String.◌∷◌ c s) String.[] h = cc
codes_injective (String.◌∷◌ c s) (String.◌∷◌ d t) h =
    cc (Char-path c d (cc), codes_injective s t (cc))

text_lt_total : (s t : String) → str_eq s t ≡ false → (text_lt s t ≡ true) ⊎ (text_lt t s ≡ true)
unfolding text_lt
text_lt_total s t h = elim (lex_lt_total (codes s) (codes t)) [
  | inl e ↦ absurd (true-ne-false (sym ((str_eq_iff s t).1 (codes_injective s t e)) ∙ h))
  | inr d ↦ d
]

pub text_lt-IsCollation : IsCollation text_lt
unfolding text_lt
text_lt-IsCollation = record {
  irrefl = λ a. lex_lt_irrefl (codes a);
  trans = λ a b c h e. lex_lt_trans (codes a) (codes b) (codes c) h e;
  total = text_lt_total;
}
