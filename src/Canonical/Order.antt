-- ===== src/Canonical/Order.antt =====
-- About the order of keys in canonical JSON, security/canonical-json.ts.
use teamem_server.Prelude.{
  ℕ, ◌≡◌, ◌≢◌, refl, sym, ap, ◌∙◌, ◌⊎◌, inl, inr, true, false, Option, none, some, List, [], ◌∷◌,
  ◌++◌, map, ltb, arith, Bool-cases, true-ne-false, Option-cases,
}
use teamem_server.Redact.{
  Json, text, array, object, atom, Items, no_items, item, Fields, no_fields, field,
}
use teamem_server.Table.Pages.{map_option}
use teamem_server.Canonical.{
  Entry, units_lt, insert_entry, sort_entries, cons_option, array_text, object_text, entry_text,
  join, stringify_value, stringify_items, stringify_fields, canonical_json,
}

-- The same value but for the order of the keys of its objects, at any depth.
mutual
  pub data Same : Json → Json → Type 0 where
    same_atom : (n : ℕ) → Same (atom n) (atom n)
    same_text : (s : List ℕ) → Same (text s) (text s)
    in_array : {is js : Items} → SameItems is js → Same (array is) (array js)
    in_object : {fs gs : Fields} → SameFields fs gs → Same (object fs) (object gs)

  pub data SameItems : Items → Items → Type 0 where
    no_more_items : SameItems no_items no_items
    next_item :
        {v w : Json} {is js : Items}
        → Same v w
        → SameItems is js
        → SameItems (item v is) (item w js)

  pub data SameFields : Fields → Fields → Type 0 where
    no_more_fields : SameFields no_fields no_fields
    next_field :
        (key : List ℕ) {v w : Json} {fs gs : Fields}
        → Same v w
        → SameFields fs gs
        → SameFields (field key v fs) (field key w gs)
    swap :
        (k l : List ℕ) (v w : Json) (fs : Fields)
        → k ≢ l
        → SameFields (field k v (field l w fs)) (field l w (field k v fs))
    then_also : {fs gs hs : Fields} → SameFields fs gs → SameFields gs hs → SameFields fs hs

units_lt_asym : (s t : List ℕ) → units_lt s t ≡ true → units_lt t s ≡ false
unfolding units_lt
units_lt_asym s [] h = absurd (true-ne-false (sym h))
units_lt_asym [] (d ∷ t) h = refl
units_lt_asym (c ∷ s) (d ∷ t) h = ground (arith, units_lt_asym s t)

units_lt_trans : (s t u : List ℕ) → units_lt s t ≡ true → units_lt t u ≡ true → units_lt s u ≡ true
unfolding units_lt
units_lt_trans s [] u h e = absurd (true-ne-false (sym h))
units_lt_trans s (d ∷ t) [] h e = absurd (true-ne-false (sym e))
units_lt_trans [] (d ∷ t) (f ∷ u) h e = refl
units_lt_trans (c ∷ s) (d ∷ t) (f ∷ u) h e = ground (arith, units_lt_trans s t u)

units_lt_total : (s t : List ℕ) → s ≢ t → (units_lt s t ≡ true) ⊎ (units_lt t s ≡ true)
unfolding units_lt
units_lt_total [] [] h = absurd (h refl)
units_lt_total [] (d ∷ t) h = inl refl
units_lt_total (c ∷ s) [] h = inr refl
units_lt_total (c ∷ s) (d ∷ t) h = elim (Bool-cases (ltb c d)) [
  | inl less ↦ inl (ground arith)
  | inr not_less ↦ elim (Bool-cases (ltb d c)) [
    | inl more ↦ inr (ground arith)
    | inr not_more ↦
        let same : c ≡ d = ground arith in
        elim (units_lt_total s t (λ e. h (cc))) [
          | inl k ↦ inl (ground arith)
          | inr k ↦ inr (ground arith)
        ]
  ]
]

-- Two entries with different keys may be inserted in either order.
insert_entry_comm :
    (e f : Entry) (es : List Entry)
    → (units_lt e.0 f.0 ≡ true)
    → insert_entry e (insert_entry f es) ≡ insert_entry f (insert_entry e es)
unfolding insert_entry
insert_entry_comm e f [] h = rw (h, units_lt_asym e.0 f.0 h) refl
insert_entry_comm e f (g ∷ es) h =
    ground (arith, units_lt_asym e.0 f.0, units_lt_trans g.0 e.0 f.0, insert_entry_comm e f es h)

insert_entry_swap :
    (e f : Entry) (es : List Entry)
    → e.0 ≢ f.0
    → insert_entry e (insert_entry f es) ≡ insert_entry f (insert_entry e es)
insert_entry_swap e f es h = elim (units_lt_total e.0 f.0 h) [
  | inl less ↦ insert_entry_comm e f es less
  | inr more ↦ sym (insert_entry_comm f e es more)
]

abbrev insert_option : Option Entry → Option (List Entry) → Option (List Entry)
insert_option none es = none
insert_option (some e) es = map_option (insert_entry e) es

object_text-sorted :
    (es : Option (List Entry))
    → map_option object_text es
      ≡ map_option
          (λ fs. b'{' ∷ (join (map entry_text fs) ++ b'}' ∷ []))
          (map_option sort_entries es)
object_text-sorted none = refl
object_text-sorted (some es) = refl

module _ (atom_text : ℕ → Option (List ℕ)) where
  abbrev sorted_fields : Fields → Option (List Entry)
  sorted_fields fs = map_option sort_entries (stringify_fields atom_text fs)

  abbrev entry_of : List ℕ → Json → Option Entry
  entry_of key v = map_option (λ t. (key, t)) (stringify_value atom_text v)

  sorted-next :
      (key : List ℕ) (v : Json) (fs : Fields)
      → sorted_fields (field key v fs) ≡ insert_option (entry_of key v) (sorted_fields fs)
  unfolding stringify_fields sort_entries
  sorted-next key v fs = elim (Option-cases (stringify_value atom_text v)) [
    | inl refused ↦ rw refused refl
    | inr (t, e) ↦ elim (Option-cases (stringify_fields atom_text fs)) [
      | inl refused ↦ rw (e, refused) refl
      | inr (es, k) ↦ rw (e, k) refl
    ]
  ]

  swapped :
      (k l : List ℕ) (v w : Json) (fs : Fields)
      → k ≢ l
      → sorted_fields (field k v (field l w fs)) ≡ sorted_fields (field l w (field k v fs))
  unfolding stringify_fields sort_entries
  swapped k l v w fs h = elim (Option-cases (stringify_value atom_text v)) [
    | inl refused ↦ elim (Option-cases (stringify_value atom_text w)) [
      | inl also ↦ rw (refused, also) refl
      | inr (t, e) ↦ rw (refused, e) refl
    ]
    | inr (s, d) ↦ elim (Option-cases (stringify_value atom_text w)) [
      | inl refused ↦ rw (d, refused) refl
      | inr (t, e) ↦ elim (Option-cases (stringify_fields atom_text fs)) [
        | inl refused ↦ rw (d, e, refused) refl
        | inr (es, r) ↦ rw (d, e, r) (ap some (insert_entry_swap (k, s) (l, t) (sort_entries es) h))
      ]
    ]
  ]

  mutual
    unfolding stringify_value

    same_value : {v w : Json} → Same v w → stringify_value atom_text v ≡ stringify_value atom_text w
    same_value (same_atom n) = refl
    same_value (same_text s) = refl
    same_value (in_array h) = ap (map_option array_text) (same_items h)
    same_value (in_object {fs} {gs} h) =
        object_text-sorted (stringify_fields atom_text fs)
        ∙ ap (map_option (λ es. b'{' ∷ (join (map entry_text es) ++ b'}' ∷ []))) (same_fields h)
        ∙ sym (object_text-sorted (stringify_fields atom_text gs))

    same_items :
        {is js : Items}
        → SameItems is js
        → stringify_items atom_text is ≡ stringify_items atom_text js
    same_items no_more_items = refl
    same_items (next_item {v} {w} {is} {js} h hs) =
        ap (λ t. cons_option t (stringify_items atom_text is)) (same_value h)
        ∙ ap (cons_option (stringify_value atom_text w)) (same_items hs)

    same_fields : {fs gs : Fields} → SameFields fs gs → sorted_fields fs ≡ sorted_fields gs
    same_fields no_more_fields = refl
    same_fields (next_field key {v} {w} {fs} {gs} h hs) =
        sorted-next key v fs
        ∙ ap (λ t. insert_option (map_option (λ u. (key, u)) t) (sorted_fields fs)) (same_value h)
        ∙ ap (insert_option (entry_of key w)) (same_fields hs)
        ∙ sym (sorted-next key w gs)
    same_fields (swap k l v w fs h) = swapped k l v w fs h
    same_fields (then_also h k) = same_fields h ∙ same_fields k

  -- Two values that differ at most in the order of the keys of their objects, at any depth, an
  -- object's keys being distinct where they change places, have the same canonical text, or are both
  -- refused.
  pub canonical_json-Same :
      (v w : Json) → Same v w → canonical_json atom_text v ≡ canonical_json atom_text w
  unfolding canonical_json
  canonical_json-Same v w h = same_value h
