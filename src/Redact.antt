-- ===== src/Redact.antt =====
-- The removal of private sections, security/private-tags.ts. A text is the list of its UTF-16 units.
pub mod Scan
mod Tests
use teamem_server.Prelude.{
  ℕ, zero, suc, ◌+◌, ◌==◌, Bool, true, false, ◌&&◌, Option, none, some, String, List, [], ◌∷◌, ◌++◌,
  take, drop, length, if◌then◌else◌,
}
use teamem_server.Concepts.Contract.{codes}

abbrev pub open_tag : List ℕ
open_tag = codes "<private>"

abbrev pub close_tag : List ℕ
close_tag = codes "</private>"

-- `s.startsWith(tag)`
unfoldable pub starts_with : List ℕ → List ℕ → Bool
starts_with [] s = true
starts_with (t ∷ ts) [] = false
starts_with (t ∷ ts) (c ∷ s) = t == c && starts_with ts s

-- `s.indexOf(tag)`, the place of its first occurrence.
unfoldable pub index_of : List ℕ → List ℕ → Option ℕ
unfolding starts_with
index_of tag [] = none
index_of tag (c ∷ s) =
    let later = index_of tag s in
    if starts_with tag (c ∷ s) then some 0 else (elim later [ none ↦ none | some i ↦ some (suc i) ])

-- The loop of `stripString` on what is left after the cursor, with a bound on the passes.
unfoldable pub strip_from : ℕ → List ℕ → List ℕ
unfolding index_of
strip_from zero s = []
strip_from (suc fuel) s = elim (index_of open_tag s) [
  | none ↦ s
  | some i ↦ elim (index_of close_tag (drop (i + length open_tag) s)) [
    | none ↦ take i s
    | some j ↦
        take i s ++ strip_from fuel (drop (j + length close_tag) (drop (i + length open_tag) s))
  ]
]

-- `stripString`: each pass takes an opening tag at least.
unfoldable pub strip_string : List ℕ → List ℕ
unfolding strip_from
strip_string s = strip_from (suc (length s)) s

-- A JSON value; `atom` is a number, a Boolean, null or undefined.
mutual
  pub data Json : Type 0 where
    text : List ℕ → Json
    array : Items → Json
    object : Fields → Json
    atom : ℕ → Json

  pub data Items : Type 0 where
    no_items : Items
    item : Json → Items → Items

  pub data Fields : Type 0 where
    no_fields : Fields
    field : List ℕ → Json → Fields → Fields

-- `stripPrivateTags`: keys stay as they are.
unfoldable mutual
  unfolding strip_string

  pub strip_private_tags : Json → Json
  strip_private_tags (text s) = text (strip_string s)
  strip_private_tags (array items) = array (strip_items items)
  strip_private_tags (object fields) = object (strip_fields fields)
  strip_private_tags (atom n) = atom n

  pub strip_items : Items → Items
  strip_items no_items = no_items
  strip_items (item v items) = item (strip_private_tags v) (strip_items items)

  pub strip_fields : Fields → Fields
  strip_fields no_fields = no_fields
  strip_fields (field key v fields) = field key (strip_private_tags v) (strip_fields fields)
