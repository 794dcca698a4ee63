-- ===== src/Prelude/Results.antt =====
-- A call that may throw: its value, or what it throws.
use mathlib.Core.Path.{ap, ◌≡◌, refl}
use mathlib.Core.Logic.{◌⊎◌, inl, inr}

pub data Result {ℓ} (E A : Type ℓ) : Type ℓ where
  ok : A → Result E A
  err : E → Result E A

infixl 5 ◌>>=◌
abbrev pub ◌>>=◌ {ℓ} : {E A B : Type ℓ} → Result E A → (A → Result E B) → Result E B
ok a >>= f = f a
err e >>= f = err e

pub err-ne-ok {ℓ} : {E A : Type ℓ} {e : E} {a : A} → ◌≡◌ {A = Result E A} (err e) (ok a) → ⊥
err-ne-ok h = cc

pub ok-injective {ℓ} : {E A : Type ℓ} {a b : A} → ◌≡◌ {A = Result E A} (ok a) (ok b) → a ≡ b
ok-injective h = cc

pub Result-cases {ℓ} :
    {E A : Type ℓ} (r : Result E A) → ((a : A) × (r ≡ ok a)) ⊎ ((e : E) × (r ≡ err e))
Result-cases (ok a) = inl (a, refl)
Result-cases (err e) = inr (e, refl)

module _ {ℓ} {S E A : Type ℓ} where
  abbrev pub settle : S → S × Result E A → S × Result E A
  settle s (s', ok a) = (s', ok a)
  settle s (s', err e) = (s, err e)

  -- `db.transaction`: what a body that throws has written is rolled back.
  abbrev pub transaction : (S → S × Result E A) → S → S × Result E A
  transaction body s = settle s (body s)

  pub transaction-err :
      (body : S → S × Result E A) (s : S) (e : E)
      → (transaction body s).1 ≡ err e
      → (transaction body s).0 ≡ s
  transaction-err body s e h = settled (body s) h
    where
      settled : (r : S × Result E A) → (settle s r).1 ≡ err e → (settle s r).0 ≡ s
      settled (s', ok a) k = absurd (cc)
      settled (s', err d) k = refl

  pub transaction-ok :
      (body : S → S × Result E A) (s : S) (a : A)
      → (transaction body s).1 ≡ ok a
      → transaction body s ≡ body s
  transaction-ok body s a h = settled (body s) h
    where
      settled : (r : S × Result E A) → (settle s r).1 ≡ ok a → settle s r ≡ r
      settled (s', ok b) k = refl
      settled (s', err d) k = absurd (cc)

  pub transaction-of-ok :
      (body : S → S × Result E A) (s : S) (a : A) → (body s).1 ≡ ok a → transaction body s ≡ body s
  transaction-of-ok body s a h = settled (body s) h
    where
      settled : (r : S × Result E A) → r.1 ≡ ok a → settle s r ≡ r
      settled (s', ok b) k = refl
      settled (s', err d) k = absurd (cc)

  pub transaction-of-err :
      (body : S → S × Result E A) (s : S) (e : E)
      → (body s).1 ≡ err e
      → transaction body s ≡ (s, err e)
  transaction-of-err body s e h = settled (body s) h
    where
      settled : (r : S × Result E A) → r.1 ≡ err e → settle s r ≡ (s, err e)
      settled (s', ok b) k = absurd (cc)
      settled (s', err d) k = ap (λ x. (s, x)) k

-- A call and what follows it where it returns; what it throws is thrown on.
unfoldable pub then_do {ℓ} :
    {S E A B : Type ℓ} → S × Result E A → (A → S → S × Result E B) → S × Result E B
then_do p f = elim p.1 [ ok a ↦ f a p.0 | err e ↦ (p.0, err e) ]

module _ {ℓ} {S E A B : Type ℓ} where
  pub then_do-ok :
      (p : S × Result E A) (f : A → S → S × Result E B) (a : A) → p.1 ≡ ok a → then_do p f ≡ f a p.0
  unfolding then_do
  then_do-ok p f a h = rw (h, then_do) refl

  pub then_do-err :
      (p : S × Result E A) (f : A → S → S × Result E B) (e : E)
      → p.1 ≡ err e
      → then_do p f ≡ (p.0, err e)
  unfolding then_do
  then_do-err p f e h = rw (h, then_do) refl

  -- What both calls keep is kept.
  pub then_do-keeps {κ} :
      (P : S → Type κ) (p : S × Result E A) (f : A → S → S × Result E B)
      → P p.0
      → ((a : A) (s : S) → P s → P (f a s).0)
      → P (then_do p f).0
  then_do-keeps P p f here later = elim (Result-cases p.1) [
    | inl (a, h) ↦ rw (then_do-ok p f a h) (later a p.0 here)
    | inr (e, h) ↦ rw (then_do-err p f e h) here
  ]

  -- Where both return, the first has returned.
  pub then_do-returned :
      (p : S × Result E A) (f : A → S → S × Result E B) (b : B)
      → (then_do p f).1 ≡ ok b
      → (a : A) × (p.1 ≡ ok a) × (then_do p f ≡ f a p.0)
  then_do-returned p f b h = elim (Result-cases p.1) [
    | inl (a, went) ↦ (a, went, then_do-ok p f a went)
    | inr (e, failed) ↦ absurd (err-ne-ok (rw (then_do-err p f e failed) at h))
  ]
