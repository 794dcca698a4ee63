-- ===== src/Table/Unique.antt =====
-- Rows under a key that has at most one of them, and what a column shows after an update.
use mathlib.Core.Bool.{false≢true}
use teamem_server.Prelude.{
  ◌≤◌, ◌≡◌, refl, sym, ap, ◌∙◌, inl, inr, Bool, true, false, ◌&&◌, some, List, [], ◌∷◌, map, arith,
  length, first, Bool-cases,
}
use teamem_server.Table.{filter, update_where, first-filter_holds, filter-update_inside}

module _ {ℓ} {A : Type ℓ} where
  pub filter-narrow :
      (p q : A → Bool)
      → ((r : A) → p r ≡ true → q r ≡ true)
      → (rs : List A) → filter p (filter q rs) ≡ filter p rs
  unfolding filter
  filter-narrow p q h [] = refl
  filter-narrow p q h (r ∷ rs) = elim (Bool-cases (q r)) [
    | inl e ↦ rw e (elim (Bool-cases (p r)) [
      | inl d ↦ rw d (ap (λ l. r ∷ l) (filter-narrow p q h rs))
      | inr d ↦ rw d (filter-narrow p q h rs)
    ])
    | inr e ↦ elim (Bool-cases (p r)) [
      | inl d ↦ absurd (false≢true (sym e ∙ h r d))
      | inr d ↦ rw (e, d) (filter-narrow p q h rs)
    ]
  ]

  pub filter-filter :
      (p q : A → Bool) (rs : List A) → filter p (filter q rs) ≡ filter (λ r. q r && p r) rs
  unfolding filter
  filter-filter p q [] = refl
  filter-filter p q (r ∷ rs) = elim (Bool-cases (q r)) [
    | inl e ↦ rw e (elim (Bool-cases (p r)) [
      | inl d ↦ rw d (ap (λ l. r ∷ l) (filter-filter p q rs))
      | inr d ↦ rw d (filter-filter p q rs)
    ])
    | inr e ↦ rw e (filter-filter p q rs)
  ]

  first-filter_of_one :
      (p : A → Bool) (l : List A) (r : A) → length l ≤ 1 → first (filter p l) ≡ some r → l ≡ r ∷ []
  unfolding filter
  first-filter_of_one p [] r n h = cc
  first-filter_of_one p (x ∷ []) r n h = ground arith
  first-filter_of_one p (x ∷ y ∷ l) r n h = absurd (omega arith)

  -- A row found under a narrower clause is the only one that a clause with at most one row selects.
  pub filter_unique :
      (p q : A → Bool)
      → ((r : A) → p r ≡ true → q r ≡ true)
      → (rs : List A) (r : A) → length (filter q rs) ≤ 1
      → first (filter p rs) ≡ some r
      → filter q rs ≡ r ∷ []
  filter_unique p q h rs r n found =
      first-filter_of_one p (filter q rs) r n (rw (filter-narrow p q h rs) found)

  -- The same update seen through a wider clause that it keeps and that has at most one row.
  pub filter-update_unique :
      (p q : A → Bool) (f : A → A)
      → ((r : A) → p r ≡ true → q r ≡ true)
      → ((r : A) → q (f r) ≡ q r)
      → (rs : List A) (r : A) → length (filter q rs) ≤ 1
      → first (filter p rs) ≡ some r
      → filter q (update_where p f rs) ≡ f r ∷ []
  filter-update_unique p q f h keeps rs r n found =
      filter-update_inside p f q keeps rs
      ∙ ap (update_where p f) (filter_unique p q h rs r n found)
      ∙ (unfold update_where in rw (first-filter_holds p rs r found))

  pub filter_of_unique :
      (p q : A → Bool)
      → ((r : A) → p r ≡ true → q r ≡ true)
      → (rs : List A) (r : A) → filter q rs ≡ r ∷ []
      → p r ≡ true
      → filter p rs ≡ r ∷ []
  unfolding filter
  filter_of_unique p q h rs r one hit = sym (filter-narrow p q h rs) ∙ rw one (rw hit)

  -- What a column shows of the rows under one clause after an update, and under another before it.
  pub map-filter-update {κ} :
      {B : Type κ} (g : A → B) (p q q' : A → Bool) (f : A → A)
      → ((r : A) → p r ≡ true → q' (f r) ≡ q r)
      → ((r : A) → p r ≡ false → q' r ≡ q r)
      → ((r : A) → g (f r) ≡ g r)
      → (rs : List A) → map g (filter q' (update_where p f rs)) ≡ map g (filter q rs)
  unfolding filter update_where
  map-filter-update g p q q' f hit miss same [] = refl
  map-filter-update g p q q' f hit miss same (r ∷ rs) =
      ground (arith, hit r, miss r, same r, map-filter-update g p q q' f hit miss same rs)

pub first-map {ℓ κ} :
    {A : Type ℓ} {B : Type κ} (f : A → B) (l : List A) (b : B)
    → first (map f l) ≡ some b
    → (a : A) × (first l ≡ some a) × (f a ≡ b)
first-map f [] b h = absurd (cc)
first-map f (x ∷ l) b h = (x, refl, cc)

-- The first row of a selection after an update that the selection is closed under.
pub first-update {ℓ} :
    {A : Type ℓ} (p : A → Bool) (f : A → A)
    → ((r : A) → p (f r) ≡ p r)
    → (rs : List A) (r : A) → first (filter p rs) ≡ some r
    → first (filter p (update_where p f rs)) ≡ some (f r)
unfolding filter update_where
first-update p f keeps [] r h = absurd (cc)
first-update p f keeps (s ∷ rs) r h = ground (arith, keeps s, first-update p f keeps rs r)
