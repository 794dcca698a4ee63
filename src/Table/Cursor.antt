-- ===== src/Table/Cursor.antt =====
-- The cursors of packages/schema/src/common.ts and the order of the listings by them: newest first,
-- rows of the same time by id. The text of a sort value is the instant that it names, `none` the
-- empty text; a token is what `encodeCursor` makes of a payload.
use teamem_server.Prelude.{
  ℕ, ◌==◌, ◌≤◌, ◌≡◌, ◌⊎◌, inl, inr, Bool, true, false, ◌&&◌, ◌||◌, Option, none, some, String, List,
  [], ◌∷◌, arith, str_eq_self, str_eq_sym, ◌+◌, str_eq, length, ltb, if◌then◌else◌, All, All-map,
  Bool-cases,
}
use teamem_server.Table.{filter, All-filter}
use teamem_server.Table.Order.{IsStrictOrder, Differ, HasNoTies}

pub data Resource : Type 0 where
  concepts events jobs audit search timeline : Resource

abbrev pub resource_index : Resource → ℕ
resource_index concepts = 0
resource_index events = 1
resource_index jobs = 2
resource_index audit = 3
resource_index search = 4
resource_index timeline = 5

pub record Position : Type 0 where
  pub sort_value : Option ℕ
  pub id : String

pub record CursorPayload : Type 0 where
  pub resource : Resource
  pub project_id : String
  pub position : Position
  pub filter_hash : String

-- `encodeCursor` and `decodeCursor` over JSON, base64url and Zod: a token of the server's own is read
-- back as what it was made from, and is not the empty text.
pub record Tokens : Type 1 where
  pub Token : Type 0
  pub encode_cursor : CursorPayload → Token
  pub decode_cursor : Token → Option CursorPayload
  pub is_empty : Token → Bool
  pub decode-encode : (p : CursorPayload) → decode_cursor (encode_cursor p) ≡ some p
  pub encode_not_empty : (p : CursorPayload) → is_empty (encode_cursor p) ≡ false

-- The order of the database on texts.
pub record IsCollation (lt : String → String → Bool) : Type 0 where
  pub irrefl : (a : String) → lt a a ≡ false
  pub trans : (a b c : String) → lt a b ≡ true → lt b c ≡ true → lt a c ≡ true
  pub total : (a b : String) → str_eq a b ≡ false → (lt a b ≡ true) ⊎ (lt b a ≡ true)

module _ (k : Tokens) where
  open k use {Token, decode_cursor, is_empty}

  -- What a listing makes of its cursor: `none` where it is not a cursor of this resource, project and
  -- filter.
  unfoldable pub read_cursor : Resource → String → String → Option Token → Option (Option Position)
  read_cursor resource proj hash none = some none
  read_cursor resource proj hash (some token) =
      if is_empty token then some none else elim (decode_cursor token) [
        | none ↦ none
        | some p ↦
            if resource_index p.resource == resource_index resource
              && (str_eq p.project_id proj && str_eq p.filter_hash hash)
            then some (some p.position)
            else none
      ]

module _ {A : Type 0} (lt : String → String → Bool) (time : A → ℕ) (id : A → String) where
  -- `time < t OR (time = t AND id < i)`
  abbrev pub is_after : ℕ → String → A → Bool
  is_after t i r = ltb (time r) t || (time r == t && lt (id r) i)

  -- ORDER BY time DESC, id DESC
  abbrev pub is_newer : A → A → Bool
  is_newer a b = is_after (time a) (id a) b

  module _ (collation : IsCollation lt) where
    pub is_newer-IsStrictOrder : IsStrictOrder is_newer
    is_newer-IsStrictOrder = record {
      irrefl = λ a. ground (arith, collation.irrefl (id a));
      trans = λ a b c h e. ground (arith, collation.trans (id c) (id b) (id a));
    }

    differ : (a b : A) → str_eq (id a) (id b) ≡ false → Differ is_newer a b
    differ a b h = elim (Bool-cases (ltb (time b) (time a))) [
      | inl newer ↦ inl (ground arith)
      | inr not_newer ↦ elim (Bool-cases (ltb (time a) (time b))) [
        | inl older ↦ inr (ground arith)
        | inr not_older ↦ elim (collation.total (id a) (id b) h) [
          | inl less ↦ inr (ground arith)
          | inr more ↦ inl (ground arith)
        ]
      ]
    ]

    none_with_id :
        (i : String) (rs : List A)
        → length (filter (λ r. str_eq (id r) i) rs) ≤ 0
        → All (λ r. str_eq (id r) i ≡ false) rs
    unfolding filter
    none_with_id i [] h = tt
    none_with_id i (r ∷ rs) h = elim (Bool-cases (str_eq (id r) i)) [
      | inl same ↦ absurd (omega (arith, rw same at h))
      | inr other ↦ (other, none_with_id i rs (rw other at h))
    ]

    pub ids-HasNoTies :
        (rs : List A)
        → ((i : String) → length (filter (λ r. str_eq (id r) i) rs) ≤ 1)
        → HasNoTies is_newer rs
    unfolding filter
    ids-HasNoTies [] h = tt
    ids-HasNoTies (r ∷ rs) h =
        let alone : length (filter (λ s. str_eq (id s) (id r)) rs) ≤ 0 =
          let one : 1 + length (filter (λ s. str_eq (id s) (id r)) rs) ≤ 1 =
            omega (arith, rw (str_eq_self (id r)) at (h (id r))) in
          omega arith in
        (
          All-map (λ s. str_eq (id s) (id r) ≡ false) (λ s. Differ is_newer r s)
              (λ s e. differ r s (str_eq_sym (id s) (id r) e)) rs (none_with_id (id r) rs alone),
          ids-HasNoTies rs (λ i. fewer i),
        )
      where
        fewer : (i : String) → length (filter (λ s. str_eq (id s) i) rs) ≤ 1
        fewer i = elim (Bool-cases (str_eq (id r) i)) [
          | inl same ↦ omega (arith, rw same at (h i))
          | inr other ↦ rw other at (h i)
        ]

pub HasNoTies-filter {ℓ} :
    {A : Type ℓ} (before : A → A → Bool) (p : A → Bool) (rs : List A)
    → HasNoTies before rs
    → HasNoTies before (filter p rs)
unfolding filter
HasNoTies-filter before p [] h = tt
HasNoTies-filter before p (r ∷ rs) h = elim (Bool-cases (p r)) [
  | inl k ↦ rw k (All-filter (λ s. Differ before r s) p rs h.0, HasNoTies-filter before p rs h.1)
  | inr k ↦ rw k (HasNoTies-filter before p rs h.1)
]
