-- ===== src/Canonical.antt =====
-- Canonical JSON, security/canonical-json.ts, on values that are JSON: no cycles, dates or functions,
-- and texts of whole UTF-16 pairs. `atom_text` is what a number, a Boolean, null or undefined is
-- written as, `none` where it is refused.
pub mod Order
mod Tests
use teamem_server.Prelude.{
  ℕ, ◌+◌, ◌/◌, ◌%◌, ◌==◌, Bool, true, false, ◌&&◌, ◌||◌, Option, none, some, List, [], ◌∷◌, ◌++◌,
  map, ltb, if◌then◌else◌,
}
use teamem_server.Concepts.Contract.{codes}
use teamem_server.Redact.{
  Json, text, array, object, atom, Items, no_items, item, Fields, no_fields, field,
}
use teamem_server.Table.Pages.{map_option}

abbrev hex_digit : ℕ → ℕ
hex_digit n = if ltb n 10 then b'0' + n else 87 + n

-- One unit of a text between the quotes of `JSON.stringify`.
abbrev escaped : ℕ → List ℕ
escaped c =
    if c == b'"' || c == b'\\'
    then b'\\' ∷ c ∷ []
    else if c == 8
    then codes "\\b"
    else if c == 9
    then codes "\\t"
    else if c == 10
    then codes "\\n"
    else if c == 12
    then codes "\\f"
    else if c == 13
    then codes "\\r"
    else if ltb c 32
    then codes "\\u00" ++ hex_digit (c / 16) ∷ hex_digit (c % 16) ∷ []
    else c ∷ []

abbrev escape_all : List ℕ → List ℕ
escape_all [] = []
escape_all (c ∷ s) = escaped c ++ escape_all s

-- `JSON.stringify` of a text.
unfoldable pub quote : List ℕ → List ℕ
quote s = b'"' ∷ (escape_all s ++ b'"' ∷ [])

-- `texts.join(',')`
abbrev pub join : List (List ℕ) → List ℕ
join [] = []
join (t ∷ []) = t
join (t ∷ u ∷ ts) = t ++ b',' ∷ join (u ∷ ts)

-- The order of `sort()` on texts, by UTF-16 units.
unfoldable pub units_lt : List ℕ → List ℕ → Bool
units_lt s [] = false
units_lt [] (d ∷ t) = true
units_lt (c ∷ s) (d ∷ t) = ltb c d || (c == d && units_lt s t)

-- A key with the text of its value.
abbrev pub Entry : Type 0
Entry = List ℕ × List ℕ

unfoldable pub insert_entry : Entry → List Entry → List Entry
unfolding units_lt
insert_entry e [] = e ∷ []
insert_entry e (f ∷ fs) =
    let rest = insert_entry e fs in if units_lt f.0 e.0 then f ∷ rest else e ∷ f ∷ fs

-- `Object.keys(value).sort()`, each key with its value.
unfoldable pub sort_entries : List Entry → List Entry
unfolding insert_entry
sort_entries [] = []
sort_entries (e ∷ es) = insert_entry e (sort_entries es)

abbrev pub entry_text : Entry → List ℕ
entry_text e = quote e.0 ++ b':' ∷ e.1

abbrev pub array_text : List (List ℕ) → List ℕ
array_text ts = b'[' ∷ (join ts ++ b']' ∷ [])

abbrev pub object_text : List Entry → List ℕ
object_text es = b'{' ∷ (join (map entry_text (sort_entries es)) ++ b'}' ∷ [])

abbrev pub cons_option {ℓ} : {A : Type ℓ} → Option A → Option (List A) → Option (List A)
cons_option none rest = none
cons_option (some a) none = none
cons_option (some a) (some rest) = some (a ∷ rest)

module _ (atom_text : ℕ → Option (List ℕ)) where
  unfoldable mutual
    unfolding sort_entries quote

    pub stringify_value : Json → Option (List ℕ)
    stringify_value (text s) = some (quote s)
    stringify_value (array items) = map_option array_text (stringify_items items)
    stringify_value (object fields) = map_option object_text (stringify_fields fields)
    stringify_value (atom n) = atom_text n

    pub stringify_items : Items → Option (List (List ℕ))
    stringify_items no_items = some []
    stringify_items (item v items) = cons_option (stringify_value v) (stringify_items items)

    pub stringify_fields : Fields → Option (List Entry)
    stringify_fields no_fields = some []
    stringify_fields (field key v fields) =
        cons_option (map_option (λ t. (key, t)) (stringify_value v)) (stringify_fields fields)

  unfoldable pub canonical_json : Json → Option (List ℕ)
  unfolding stringify_value
  canonical_json v = stringify_value v
