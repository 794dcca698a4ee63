-- ===== src/Table/Order.antt =====
-- ORDER BY, for the listings of db/repositories: the rows in the order of a strict comparison, and
-- what WHERE and LIMIT make of them.
use teamem_server.Prelude.{
  ◌≡◌, refl, sym, ap, subst, ◌∙◌, ◌⊎◌, inl, inr, Bool, true, false, true-ne-false, List, [], ◌∷◌,
  if◌then◌else◌, All, All-map, Bool-cases, ℕ, zero, suc, some, some-injective, take, drop, last,
  All-last, All-take,
}
use teamem_server.Table.{filter, All-filter}

module _ {ℓ} {A : Type ℓ} (before : A → A → Bool) where
  insert : A → List A → List A
  insert x [] = x ∷ []
  insert x (y ∷ ys) = let rest = insert x ys in if before y x then y ∷ rest else x ∷ y ∷ ys

  unfoldable pub order_by : List A → List A
  unfolding insert
  order_by [] = []
  order_by (x ∷ xs) = insert x (order_by xs)

  -- What the comparison of a listing satisfies.
  pub record IsStrictOrder : Type ℓ where
    pub irrefl : (a : A) → before a a ≡ false
    pub trans : (a b c : A) → before a b ≡ true → before b c ≡ true → before a c ≡ true

  abbrev pub Differ : A → A → Type 0
  Differ a b = (before a b ≡ true) ⊎ (before b a ≡ true)

  -- No two rows of the list tie.
  abbrev pub HasNoTies : List A → Type 0
  HasNoTies [] = Unit
  HasNoTies (x ∷ xs) = All (λ y. Differ x y) xs × HasNoTies xs

  abbrev pub IsSorted : List A → Type 0
  IsSorted [] = Unit
  IsSorted (x ∷ xs) = All (λ y. before x y ≡ true) xs × IsSorted xs

  All-insert {κ} : (P : A → Type κ) (x : A) (ys : List A) → P x → All P ys → All P (insert x ys)
  unfolding insert
  All-insert P x [] h a = (h, tt)
  All-insert P x (y ∷ ys) h a = elim (Bool-cases (before y x)) [
    | inl later ↦ rw later (a.0, All-insert P x ys h a.1)
    | inr sooner ↦ rw sooner (h, a)
  ]

  pub All-order_by {κ} : (P : A → Type κ) (xs : List A) → All P xs → All P (order_by xs)
  unfolding order_by
  All-order_by P [] a = tt
  All-order_by P (x ∷ xs) a = All-insert P x (order_by xs) a.0 (All-order_by P xs a.1)

  module _ (order : IsStrictOrder) where
    pub asym : (a b : A) → before a b ≡ true → before b a ≡ false
    asym a b h = elim (Bool-cases (before b a)) [
      | inl k ↦ absurd (true-ne-false (sym (order.trans a b a h k) ∙ order.irrefl a))
      | inr k ↦ k
    ]

    sooner_than : (x y : A) → Differ x y → before y x ≡ false → before x y ≡ true
    sooner_than x y (inl h) e = h
    sooner_than x y (inr h) e = absurd (true-ne-false (sym h ∙ e))

    insert-IsSorted :
        (x : A) (ys : List A) → All (λ y. Differ x y) ys → IsSorted ys → IsSorted (insert x ys)
    unfolding insert
    insert-IsSorted x [] d s = (tt, tt)
    insert-IsSorted x (y ∷ ys) d s = elim (Bool-cases (before y x)) [
      | inl later ↦
          rw later
            (All-insert (λ z. before y z ≡ true) x ys later s.0, insert-IsSorted x ys d.1 s.1)
      | inr e ↦
          let sooner = sooner_than x y d.0 e in
          rw e (
            (
              sooner,
              All-map (λ z. before y z ≡ true) (λ z. before x z ≡ true)
                  (λ z h. order.trans x y z sooner h) ys s.0,
            ),
            s,
          )
    ]

    pub order_by-IsSorted : (xs : List A) → HasNoTies xs → IsSorted (order_by xs)
    unfolding order_by
    order_by-IsSorted [] d = tt
    order_by-IsSorted (x ∷ xs) d =
        insert-IsSorted x (order_by xs) (All-order_by (λ y. Differ x y) xs d.0)
          (order_by-IsSorted xs d.1)

    -- A row that comes before all others is inserted in front.
    insert_front : (x : A) (ys : List A) → All (λ y. before x y ≡ true) ys → insert x ys ≡ x ∷ ys
    unfolding insert
    insert_front x [] a = refl
    insert_front x (y ∷ ys) a = rw (asym x y a.0)

    filter-insert :
        (q : A → Bool) (x : A) (ys : List A)
        → All (λ y. Differ x y) ys
        → IsSorted ys
        → filter q (insert x ys) ≡ (if q x then insert x (filter q ys) else filter q ys)
    unfolding filter insert
    filter-insert q x [] d s = elim (Bool-cases (q x)) [ inl e ↦ rw e refl | inr e ↦ rw e refl ]
    filter-insert q x (y ∷ ys) d s = elim (Bool-cases (before y x)) [
      | inl later ↦
          let rest = filter-insert q x ys d.1 s.1 in
          rw later (elim (Bool-cases (q y)) [
            | inl e ↦ rw e (elim (Bool-cases (q x)) [
              | inl k ↦ rw (k, later) (ap (λ l. y ∷ l) (rw k at rest))
              | inr k ↦ rw k (ap (λ l. y ∷ l) (rw k at rest))
            ])
            | inr e ↦ rw e rest
          ])
      | inr e ↦
          let sooner = sooner_than x y d.0 e in
          let front : insert x (filter q (y ∷ ys)) ≡ x ∷ filter q (y ∷ ys) =
            insert_front x (filter q (y ∷ ys)) (
              All-filter (λ z. before x z ≡ true) q (y ∷ ys)
                (
                  sooner,
                  All-map (λ z. before y z ≡ true) (λ z. before x z ≡ true)
                      (λ z h. order.trans x y z sooner h) ys s.0,
                )) in
          rw e (elim (Bool-cases (q x)) [ inl k ↦ rw k (sym front) | inr k ↦ rw k refl ])
    ]

    -- WHERE and ORDER BY commute.
    pub filter-order_by :
        (q : A → Bool) (xs : List A)
        → HasNoTies xs
        → filter q (order_by xs) ≡ order_by (filter q xs)
    unfolding filter order_by
    filter-order_by q [] d = refl
    filter-order_by q (x ∷ xs) d =
        filter-insert q x (order_by xs) (All-order_by (λ y. Differ x y) xs d.0)
          (order_by-IsSorted xs d.1)
        ∙ (elim (Bool-cases (q x)) [
          | inl k ↦ rw k (ap (insert x) (filter-order_by q xs d.1))
          | inr k ↦ rw k (filter-order_by q xs d.1)
        ])

    filter_all : (p : A → Bool) (xs : List A) → All (λ y. p y ≡ true) xs → filter p xs ≡ xs
    unfolding filter
    filter_all p [] a = refl
    filter_all p (x ∷ xs) a = rw a.0 (ap (λ l. x ∷ l) (filter_all p xs a.1))

    -- Where the first `n + 1` rows end in `c`, the rows after `c` are all but those.
    pub filter-drop :
        (n : ℕ) (xs : List A) (c : A)
        → IsSorted xs
        → last (take (suc n) xs) ≡ some c
        → filter (before c) xs ≡ drop (suc n) xs
    unfolding filter
    filter-drop n [] c s h = cc
    filter-drop zero (x ∷ xs) c s h =
        let same : x ≡ c = some-injective h in
        subst (λ d. filter (before d) (x ∷ xs) ≡ xs) same
          (rw (order.irrefl x) (filter_all (before x) xs s.0))
    filter-drop (suc n) (x ∷ []) c s h =
        let same : x ≡ c = some-injective h in rw (← same) (rw (order.irrefl x) refl)
    filter-drop (suc n) (x ∷ y ∷ xs) c s h =
        rw
          (asym x c (
            All-last (λ z. before x z ≡ true) (take (suc n) (y ∷ xs)) c
              (All-take (λ z. before x z ≡ true) (suc n) (y ∷ xs) s.0) h))
          (filter-drop n (y ∷ xs) c s.1 h)

  pub IsSorted-filter : (q : A → Bool) (xs : List A) → IsSorted xs → IsSorted (filter q xs)
  unfolding filter
  IsSorted-filter q [] s = tt
  IsSorted-filter q (x ∷ xs) s = elim (Bool-cases (q x)) [
    | inl k ↦ rw k (All-filter (λ y. before x y ≡ true) q xs s.0, IsSorted-filter q xs s.1)
    | inr k ↦ rw k (IsSorted-filter q xs s.1)
  ]
