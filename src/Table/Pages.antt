-- ===== src/Table/Pages.antt =====
-- Pages of a listing in db/repositories: LIMIT n + 1 to see whether more rows follow, a cursor that
-- names the last row of the page, and a client that follows the cursors.
use teamem_server.Prelude.{
  ℕ, zero, suc, ◌+◌, ◌-◌, ◌≤◌, ◌<◌, ◌≡◌, refl, sym, ap, ◌∙◌, subst, ◌⊎◌, inl, inr, Bool, true,
  false, Option, none, some, List, [], ◌∷◌, ◌++◌, length, take, drop, last, ltb, if◌then◌else◌,
  All-last, All-take, Bool-cases, take-append-drop, arith, All,
}
use teamem_server.Table.{filter, All-filter, All-filter_holds}
use teamem_server.Table.Unique.{filter-narrow}
use teamem_server.Table.Order.{IsStrictOrder, IsSorted, filter-drop, IsSorted-filter}

-- `hasMore` and the rows of the page, from the `limit + 1` rows of the query.
unfoldable pub cut_page {ℓ} : {A : Type ℓ} → ℕ → List A → List A × Bool
cut_page limit rows = if ltb limit (length rows) then (take limit rows, true) else (rows, false)

-- A client that follows the cursors until there is none, for at most `fuel` pages.
unfoldable pub walk {ℓ κ} :
    {A : Type ℓ} {C : Type κ} → ℕ → (Option C → List A × Option C) → Option C → List A
walk zero fetch cursor = []
walk (suc fuel) fetch cursor =
    let page = fetch cursor in
    elim page.1 [ none ↦ page.0 | some next ↦ page.0 ++ walk fuel fetch (some next) ]

abbrev pub map_option {ℓ κ} : {A : Type ℓ} {B : Type κ} → (A → B) → Option A → Option B
map_option f none = none
map_option f (some a) = some (f a)

module _ {ℓ κ} {A : Type ℓ} {C : Type κ} (limit : ℕ) (token : A → C) where
  -- The page of a query that has the rows `rows` without its LIMIT.
  unfoldable pub serve : List A → List A × Option C
  unfolding cut_page
  serve rows =
      let (kept, more) = cut_page limit (take (limit + 1) rows) in
      (kept, if more then map_option token (last kept) else none)

module _ {ℓ} {A : Type ℓ} where
  ltb-length-take : (n : ℕ) (xs : List A) → ltb n (length (take (suc n) xs)) ≡ ltb n (length xs)
  ltb-length-take zero [] = refl
  ltb-length-take zero (x ∷ xs) = ground arith
  ltb-length-take (suc n) [] = refl
  ltb-length-take (suc n) (x ∷ xs) = ground (arith, ltb-length-take n xs)

  take-take : (n : ℕ) (xs : List A) → take n (take (suc n) xs) ≡ take n xs
  take-take zero xs = refl
  take-take (suc n) [] = refl
  take-take (suc n) (x ∷ xs) = ap (λ l. x ∷ l) (take-take n xs)

  take_all : (n : ℕ) (xs : List A) → ltb n (length xs) ≡ false → take (suc n) xs ≡ xs
  take_all n [] h = refl
  take_all zero (x ∷ xs) h = ground arith
  take_all (suc n) (x ∷ xs) h = ap (λ l. x ∷ l) (take_all n xs (ground arith))

  last-take : (n : ℕ) (xs : List A) → n < length xs → (c : A) × (last (take (suc n) xs) ≡ some c)
  last-take n [] h = absurd (omega arith)
  last-take zero (x ∷ xs) h = (x, refl)
  last-take (suc n) (x ∷ []) h = absurd (omega arith)
  last-take (suc n) (x ∷ y ∷ xs) h = last-take n (y ∷ xs) (omega arith)

  length-drop : (n : ℕ) (xs : List A) → n < length xs → length (drop (suc n) xs) < length xs
  length-drop n [] h = absurd (omega arith)
  length-drop zero (x ∷ xs) h = omega arith
  length-drop (suc n) (x ∷ xs) h = omega (arith, length-drop n xs)

  pub cut_page-take :
      (limit : ℕ) (rows : List A)
      → cut_page limit (take (limit + 1) rows)
        ≡ (if ltb limit (length rows) then (take limit rows, true) else (rows, false))
  unfolding cut_page
  cut_page-take limit rows =
      let one_more : limit + 1 ≡ suc limit = omega arith in
      rw one_more (
        rw (ltb-length-take limit rows) (elim (Bool-cases (ltb limit (length rows))) [
          | inl more ↦ rw more (ap (λ (l : List A). (l, true)) (take-take limit rows))
          | inr all ↦ rw all (ap (λ (l : List A). (l, false)) (take_all limit rows all))
        ]))

module _ {ℓ κ} {A : Type ℓ} {C : Type κ} (limit : ℕ) (token : A → C) (rows : List A) where
  serve_last : ltb limit (length rows) ≡ false → serve limit token rows ≡ (rows, none)
  unfolding serve
  serve_last all = rw (cut_page-take limit rows, all) refl

  serve_more :
      (c : A)
      → ltb limit (length rows) ≡ true
      → last (take limit rows) ≡ some c
      → serve limit token rows ≡ (take limit rows, some (token c))
  unfolding serve
  serve_more c more found = rw (cut_page-take limit rows) (rw more (rw found refl))

module _ {ℓ κ} {A : Type ℓ} {C : Type κ} (fuel : ℕ) (fetch : Option C → List A × Option C)
    (cursor : Option C) (page : List A) where
  walk_last : fetch cursor ≡ (page, none) → walk (suc fuel) fetch cursor ≡ page
  unfolding walk
  walk_last e =
      ap
        (λ (p : List A × Option C).
          let r : List A = elim p.1 [
            | none ↦ p.0
            | some next ↦ p.0 ++ walk fuel fetch (some next)
          ] in
          r)
        e

  walk_next :
      (next : C)
      → fetch cursor ≡ (page, some next)
      → walk (suc fuel) fetch cursor ≡ page ++ walk fuel fetch (some next)
  unfolding walk
  walk_next next e =
      ap
        (λ (p : List A × Option C).
          let r : List A = elim p.1 [
            | none ↦ p.0
            | some next' ↦ p.0 ++ walk fuel fetch (some next')
          ] in
          r)
        e

module _ {ℓ κ} {A : Type ℓ} {C : Type κ} (before : A → A → Bool) (order : IsStrictOrder before)
    (token : A → C) (rows : List A) (sorted : IsSorted before rows) (limit : ℕ)
    (fetch : Option C → List A × Option C) where
  -- The rows that are left: all of them, or those after a cursor.
  abbrev IsRest : List A → Type ℓ
  IsRest left = (left ≡ rows) ⊎ ((c : A) × (left ≡ filter (before c) rows))

  IsRest-IsSorted : (left : List A) → IsRest left → IsSorted before left
  IsRest-IsSorted left (inl e) = subst (IsSorted before) (sym e) sorted
  IsRest-IsSorted left (inr (c, e)) =
      subst (IsSorted before) (sym e) (IsSorted-filter before (before c) rows sorted)

  rest_after :
      (left : List A) (n : ℕ) (c : A)
      → IsRest left
      → last (take (suc n) left) ≡ some c
      → filter (before c) rows ≡ drop (suc n) left
  rest_after left n c (inl e) h =
      subst (λ l. filter (before c) l ≡ drop (suc n) left) e
        (filter-drop before order n left c (IsRest-IsSorted left (inl e)) h)
  rest_after left n c (inr (b, e)) h =
      let holds : All (λ r. before b r ≡ true) left =
        subst (All (λ r. before b r ≡ true)) (sym e) (All-filter_holds (before b) rows) in
      let later : before b c ≡ true =
        All-last (λ r. before b r ≡ true) (take (suc n) left) c
          (All-take (λ r. before b r ≡ true) (suc n) left holds) h in
      sym (filter-narrow (before c) (before b) (λ r k. order.trans b c r later k) rows)
      ∙ ap (filter (before c)) (sym e)
      ∙ filter-drop before order n left c (IsRest-IsSorted left (inr (b, e))) h

  -- The pages of a listing, in order, are all its rows: none is left out and none comes twice, and
  -- one page more than there are rows is enough to come to the end.
  module _ (positive : 1 ≤ limit) (P : A → Type 0) (each : All P rows)
      (next : (c : A)
        → P c
        → fetch (some (token c)) ≡ serve limit token (filter (before c) rows)) where
    IsRest-All : (left : List A) → IsRest left → All P left
    IsRest-All left (inl e) = subst (All P) (sym e) each
    IsRest-All left (inr (c, e)) = subst (All P) (sym e) (All-filter P (before c) rows each)

    walk_rest :
        (fuel : ℕ) (left : List A) (cursor : Option C)
        → length left < fuel
        → IsRest left
        → fetch cursor ≡ serve limit token left
        → walk fuel fetch cursor ≡ left
    unfolding walk serve
    walk_rest zero left cursor enough rest e = absurd (omega arith)
    walk_rest (suc fuel) left cursor enough rest e = elim (Bool-cases (ltb limit (length left))) [
      | inr all ↦ walk_last fuel fetch cursor left (e ∙ serve_last limit token left all)
      | inl more ↦
          let l = limit - 1 in
          let whole : limit ≡ suc l = omega arith in
          let (c, found) = last-take l left (ground arith) in
          let fits : P c =
            All-last P (take (suc l) left) c (All-take P (suc l) left (IsRest-All left rest))
              found in
          let after : filter (before c) rows ≡ drop limit left =
            rest_after left l c rest found ∙ ap (λ n. drop n left) (sym whole) in
          let shorter : length (filter (before c) rows) < fuel =
            subst (λ (r : List A). length r < fuel) (sym after)
              (subst (λ n. length (drop n left) < fuel) (sym whole)
                (omega (arith, length-drop {ℓ} l left (ground arith)))) in
          walk_next fuel fetch cursor (take limit left) (token c)
            (e ∙ serve_more limit token left c more (ap (λ n. last (take n left)) whole ∙ found))
          ∙ (ap (λ r. take limit left ++ r)
                (walk_rest fuel (filter (before c) rows) (some (token c)) shorter (inr (c, refl))
                    (next c fits)
                  ∙ after)
              ∙ take-append-drop limit left)
    ]

    pub walk_all :
        (fuel : ℕ)
        → length rows < fuel
        → fetch none ≡ serve limit token rows
        → walk fuel fetch none ≡ rows
    walk_all fuel enough e = walk_rest fuel rows none enough (inl refl) e
