-- ===== src/Table.antt =====
-- A database table as the list of its rows: the SQL statements that db/repositories/*.ts issue
-- through Drizzle, `SELECT … WHERE`, `UPDATE … WHERE … RETURNING`, and their laws. The proofs of the
-- components stay above this module: a statement's WHERE clause is a Boolean test on a row.
pub mod Unique
pub mod Order
pub mod Pages
pub mod Cursor
pub mod Collation
pub mod Newest
use teamem_server.Prelude.{
  suc, ◌≤◌, ◌≡◌, refl, sym, ap, ◌∙◌, inl, inr, Bool, true, false, not, none, some, List, [], ◌∷◌,
  ◌++◌, map, arith, if◌then◌else◌, length, first, All, Bool-cases,
}

module _ {ℓ} {A : Type ℓ} where
  -- SELECT … WHERE p
  unfoldable pub filter : (A → Bool) → List A → List A
  filter p [] = []
  filter p (r ∷ rs) = let rest = filter p rs in if p r then r ∷ rest else rest

  -- UPDATE … SET f WHERE p
  unfoldable pub update_where : (A → Bool) → (A → A) → List A → List A
  update_where p f [] = []
  update_where p f (r ∷ rs) = (if p r then f r else r) ∷ update_where p f rs

  -- DELETE … WHERE p
  unfoldable pub delete_where : (A → Bool) → List A → List A
  unfolding filter
  delete_where p rs = filter (λ r. not (p r)) rs

  -- The rows that `UPDATE … RETURNING` hands back.
  unfoldable pub returning : (A → Bool) → (A → A) → List A → List A
  unfolding filter
  returning p f rs = map f (filter p rs)

  module _ (p : A → Bool) (f : A → A) where
    -- An update that takes its rows out of the WHERE clause leaves nothing for a second one.
    pub filter-update_none :
        ((r : A) → p r ≡ true → p (f r) ≡ false)
        → (rs : List A) → filter p (update_where p f rs) ≡ []
    unfolding filter update_where
    filter-update_none h [] = refl
    filter-update_none h (r ∷ rs) = ground (arith, h r, filter-update_none h rs)

    -- An update of rows that no row of `q` is among, before or after, is not seen through `q`.
    pub filter-update_apart :
        (q : A → Bool)
        → ((r : A) → p r ≡ true → (q r ≡ false) × (q (f r) ≡ false))
        → (rs : List A) → filter q (update_where p f rs) ≡ filter q rs
    unfolding filter update_where
    filter-update_apart q h [] = refl
    filter-update_apart q h (r ∷ rs) = ground (arith, h r, filter-update_apart q h rs)

    -- An update that brings no row into an empty selection.
    pub filter-update_still_none :
        (q : A → Bool)
        → ((r : A) → p r ≡ true → q (f r) ≡ true → q r ≡ true)
        → (rs : List A) → filter q rs ≡ []
        → filter q (update_where p f rs) ≡ []
    unfolding filter update_where
    filter-update_still_none q h [] e = refl
    filter-update_still_none q h (r ∷ rs) e = ground (arith, h r, filter-update_still_none q h rs)

    -- An update that no test `q` can tell from the row itself keeps the number of its rows.
    pub length-filter-update :
        (q : A → Bool)
        → ((r : A) → q (f r) ≡ q r)
        → (rs : List A) → length (filter q (update_where p f rs)) ≡ length (filter q rs)
    unfolding filter update_where
    length-filter-update q h [] = refl
    length-filter-update q h (r ∷ rs) = elim (Bool-cases (p r)) [
      | inl hit ↦
          rw (hit, h r)
            (elim (Bool-cases (q r)) [
              | inl e ↦ rw e (ap suc (length-filter-update q h rs))
              | inr e ↦ rw e (length-filter-update q h rs)
            ])
      | inr miss ↦ rw miss (elim (Bool-cases (q r)) [
        | inl e ↦ rw e (ap suc (length-filter-update q h rs))
        | inr e ↦ rw e (length-filter-update q h rs)
      ])
    ]

    -- An update under which `q` is closed, seen through `q`.
    pub filter-update_inside :
        (q : A → Bool)
        → ((r : A) → q (f r) ≡ q r)
        → (rs : List A) → filter q (update_where p f rs) ≡ update_where p f (filter q rs)
    unfolding filter update_where
    filter-update_inside q h [] = refl
    filter-update_inside q h (r ∷ rs) = elim (Bool-cases (q r)) [
      | inl e ↦ elim (Bool-cases (p r)) [
        | inl hit ↦ rw (hit, h r, e, hit) (ap (λ l. f r ∷ l) (filter-update_inside q h rs))
        | inr miss ↦ rw (miss, e, miss) (ap (λ l. r ∷ l) (filter-update_inside q h rs))
      ]
      | inr e ↦ elim (Bool-cases (p r)) [
        | inl hit ↦ rw (hit, h r, e) (filter-update_inside q h rs)
        | inr miss ↦ rw (miss, e) (filter-update_inside q h rs)
      ]
    ]

    -- Where the WHERE clause selects nothing, the table is unchanged.
    pub update_where_none : (rs : List A) → filter p rs ≡ [] → update_where p f rs ≡ rs
    unfolding filter update_where
    update_where_none [] h = refl
    update_where_none (r ∷ rs) h = ground (arith, update_where_none rs)

    pub All-update_where {κ} :
        (P : A → Type κ)
        → ((r : A) → p r ≡ true → P r → P (f r))
        → (rs : List A) → All P rs
        → All P (update_where p f rs)
    unfolding update_where
    All-update_where P h [] a = tt
    All-update_where P h (r ∷ rs) a = elim (Bool-cases (p r)) [
      | inl hit ↦ rw hit (h r hit a.0, All-update_where P h rs a.1)
      | inr miss ↦ rw miss (a.0, All-update_where P h rs a.1)
    ]

  pub All-filter {κ} :
      (P : A → Type κ) (p : A → Bool) (rs : List A) → All P rs → All P (filter p rs)
  unfolding filter
  All-filter P p [] a = tt
  All-filter P p (r ∷ rs) a = elim (Bool-cases (p r)) [
    | inl hit ↦ rw hit (a.0, All-filter P p rs a.1)
    | inr miss ↦ rw miss (All-filter P p rs a.1)
  ]

  pub All-filter_holds : (p : A → Bool) (rs : List A) → All (λ r. p r ≡ true) (filter p rs)
  unfolding filter
  All-filter_holds p [] = tt
  All-filter_holds p (r ∷ rs) = elim (Bool-cases (p r)) [
    | inl hit ↦ rw hit (hit, All-filter_holds p rs)
    | inr miss ↦ rw miss (All-filter_holds p rs)
  ]

  pub filter-cong :
      (p q : A → Bool) → ((r : A) → p r ≡ q r) → (rs : List A) → filter p rs ≡ filter q rs
  unfolding filter
  filter-cong p q h [] = refl
  filter-cong p q h (r ∷ rs) = ground (arith, h r, filter-cong p q h rs)

  pub filter-append :
      (p : A → Bool) (rs ss : List A) → filter p (rs ++ ss) ≡ filter p rs ++ filter p ss
  unfolding filter
  filter-append p [] ss = refl
  filter-append p (r ∷ rs) ss = ground (arith, filter-append p rs ss)

  -- A narrower WHERE clause selects at most as many rows.
  pub length-filter_mono :
      (p q : A → Bool)
      → ((r : A) → p r ≡ true → q r ≡ true)
      → (rs : List A) → length (filter p rs) ≤ length (filter q rs)
  unfolding filter
  length-filter_mono p q h [] = omega arith
  length-filter_mono p q h (r ∷ rs) = ground (arith, h r, length-filter_mono p q h rs)

  -- The row that a SELECT finds satisfies its WHERE clause.
  pub first-filter_holds :
      (p : A → Bool) (rs : List A) (r : A) → first (filter p rs) ≡ some r → p r ≡ true
  unfolding filter
  first-filter_holds p [] r h = cc
  first-filter_holds p (s ∷ rs) r h = ground (arith, first-filter_holds p rs r)

  pub filter-eq-nil : (p : A → Bool) (rs : List A) → first (filter p rs) ≡ none → filter p rs ≡ []
  filter-eq-nil p rs h = ground arith

  -- A narrower WHERE clause than one that selects nothing selects nothing.
  pub filter-none_mono :
      (p q : A → Bool)
      → ((r : A) → p r ≡ true → q r ≡ true)
      → (rs : List A) → filter q rs ≡ []
      → filter p rs ≡ []
  unfolding filter
  filter-none_mono p q h [] e = refl
  filter-none_mono p q h (r ∷ rs) e = ground (arith, h r, filter-none_mono p q h rs)

  -- After an update of the rows of `p`, what the new rows satisfy holds of each row of `p`.
  pub All-update_where_new {κ} :
      (p : A → Bool) (f : A → A) (P : A → Type κ)
      → ((r : A) → P (f r))
      → (rs : List A) → All (λ r. p r ≡ true → P r) (update_where p f rs)
  unfolding update_where
  All-update_where_new p f P new [] = tt
  All-update_where_new p f P new (r ∷ rs) = elim (Bool-cases (p r)) [
    | inl hit ↦ rw hit ((λ k. new r), All-update_where_new p f P new rs)
    | inr miss ↦ rw miss ((λ k. absurd (cc)), All-update_where_new p f P new rs)
  ]

  -- The rows that an update has taken, where the WHERE clause still selects them.
  pub All-filter_updated {κ} :
      (p : A → Bool) (f : A → A) (P : A → Type κ)
      → ((r : A) → P (f r))
      → (rs : List A) → All P (filter p (update_where p f rs))
  unfolding filter update_where
  All-filter_updated p f P new [] = tt
  All-filter_updated p f P new (r ∷ rs) = elim (Bool-cases (p r)) [
    | inr miss ↦ rw (miss, miss) (All-filter_updated p f P new rs)
    | inl hit ↦ elim (Bool-cases (p (f r))) [
      | inl still ↦ rw (hit, still) (new r, All-filter_updated p f P new rs)
      | inr gone ↦ rw (hit, gone) (All-filter_updated p f P new rs)
    ]
  ]

  pub All-guarded {κ} :
      (p : A → Bool) (P : A → Type κ) (rs : List A)
      → All (λ r. p r ≡ true → P r) rs
      → All P (filter p rs)
  unfolding filter
  All-guarded p P [] a = tt
  All-guarded p P (r ∷ rs) a = elim (Bool-cases (p r)) [
    | inl hit ↦ rw hit (a.0 hit, All-guarded p P rs a.1)
    | inr miss ↦ rw miss (All-guarded p P rs a.1)
  ]
