-- ===== src/Canonical/Tests.antt =====
-- Runs of security/canonical-json.ts, on numbers only as atoms.
use teamem_server.Prelude.{ℕ, ◌+◌, ◌≡◌, ◌≢◌, refl, Option, some, List, [], ◌∷◌, arith}
use teamem_server.Concepts.Contract.{codes}
use teamem_server.Redact.{Json, text, array, object, atom, no_items, item, no_fields, field}
use teamem_server.Canonical.{canonical_json, sort_entries, insert_entry, units_lt, quote}
use teamem_server.Canonical.Order.{in_object, swap, canonical_json-Same}

abbrev digit_text : ℕ → Option (List ℕ)
digit_text n = some ((48 + n) ∷ [])

-- {"b":[2,{"y":"\"","x":1}]} is written with its keys in order.
canonical_test :
    canonical_json digit_text (
      object (
        field
          (codes "b")
          (array (
            item (atom 2) (
              item
                (object
                  (field (codes "y") (text (codes "\"")) (field (codes "x") (atom 1) no_fields)))
                no_items)))
          no_fields))
    ≡ some (codes "{\"b\":[2,{\"x\":1,\"y\":\"\\\"\"}]}")
unfolding canonical_json sort_entries insert_entry units_lt quote
canonical_test = refl

abbrev two_keys : Json
two_keys = object (field (codes "b") (atom 2) (field (codes "a") (atom 1) no_fields))

abbrev other_order : Json
other_order = object (field (codes "a") (atom 1) (field (codes "b") (atom 2) no_fields))

b_not_a : codes "b" ≢ codes "a"
b_not_a h = ground arith

canonical_json-Same_example :
    canonical_json digit_text two_keys ≡ canonical_json digit_text other_order
canonical_json-Same_example =
    canonical_json-Same digit_text two_keys other_order
      (in_object (swap (codes "b") (codes "a") (atom 2) (atom 1) no_fields b_not_a))
