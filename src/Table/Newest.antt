-- ===== src/Table/Newest.antt =====
-- The listings by `created_at DESC, id DESC` of db/repositories, and their pages.
use teamem_server.Prelude.{
  ℕ, ◌≤◌, ◌<◌, ◌≡◌, refl, sym, ap, ◌∙◌, Bool, ◌&&◌, Option, none, some, String, List, str_eq,
  str_eq_self, ==_self, length, All,
}
use teamem_server.Table.{filter, All-filter}
use teamem_server.Table.Unique.{filter-filter}
use teamem_server.Table.Order.{
  order_by, filter-order_by, order_by-IsSorted, HasNoTies, IsSorted, All-order_by,
}
use teamem_server.Table.Pages.{walk, serve, walk_all}
use teamem_server.Table.Cursor.{
  Resource, resource_index, Position, CursorPayload, Tokens, read_cursor, IsCollation, is_newer,
  is_newer-IsStrictOrder, ids-HasNoTies, HasNoTies-filter,
}

-- A cursor of the server's own is read back as its place.
pub read_cursor-encode :
    (k : Tokens) (resource : Resource) (proj hash : String) (place : Position)
    → read_cursor k resource proj hash (
        some (
          k.encode_cursor (record {
            resource = resource;
            project_id = proj;
            position = place;
            filter_hash = hash;
          })))
      ≡ some (some place)
unfolding read_cursor
read_cursor-encode k resource proj hash place =
    let p : CursorPayload = record {
      resource = resource;
      project_id = proj;
      position = place;
      filter_hash = hash;
    } in
    rw (k.encode_not_empty p) (
      rw (k.decode-encode p)
        (rw (==_self (resource_index resource), str_eq_self proj, str_eq_self hash) refl))

module _ {A C : Type 0} (lt : String → String → Bool) (collation : IsCollation lt) (time : A → ℕ)
    (id : A → String) (table : List A)
    (unique : (i : String) → length (filter (λ r. str_eq (id r) i) table) ≤ 1) (listed : A → Bool)
    (limit : ℕ) (token : A → C) (fetch : Option C → List A × Option C) where
  -- The rows that are listed, the newest first.
  abbrev pub newest : List A
  newest = order_by (is_newer lt time id) (filter listed table)

  no_ties : HasNoTies (is_newer lt time id) (filter listed table)
  no_ties =
      HasNoTies-filter (is_newer lt time id) listed table
        (ids-HasNoTies lt time id collation table unique)

  pub newest-IsSorted : IsSorted (is_newer lt time id) newest
  newest-IsSorted =
      order_by-IsSorted (is_newer lt time id) (is_newer-IsStrictOrder lt time id collation)
        (filter listed table) no_ties

  newest_after :
      (c : A)
      → order_by (is_newer lt time id) (filter (λ r. listed r && is_newer lt time id c r) table)
        ≡ filter (is_newer lt time id c) newest
  newest_after c =
      ap (order_by (is_newer lt time id)) (sym (filter-filter (is_newer lt time id c) listed table))
      ∙ sym (
          filter-order_by (is_newer lt time id) (is_newer-IsStrictOrder lt time id collation)
            (is_newer lt time id c) (filter listed table) no_ties)

  -- The pages of such a listing, where a page without a cursor starts at the newest row and a page
  -- with the cursor of a row after that row.
  pub walk-newest :
      1 ≤ limit
      → (P : A → Type 0) → All P table
      → fetch none ≡ serve limit token newest
      → ((c : A)
          → P c
          → fetch (some (token c))
            ≡ serve limit token (
                order_by
                  (is_newer lt time id)
                  (filter (λ r. listed r && is_newer lt time id c r) table)))
      → (fuel : ℕ) → length newest < fuel
      → walk fuel fetch none ≡ newest
  walk-newest positive P each start next fuel enough =
      walk_all (is_newer lt time id) (is_newer-IsStrictOrder lt time id collation) token newest
        newest-IsSorted limit fetch positive P
        (All-order_by (is_newer lt time id) P (filter listed table)
          (All-filter P listed table each))
        (λ c p. next c p ∙ ap (serve limit token) (newest_after c)) fuel enough start
