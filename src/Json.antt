-- ===== src/Json.antt =====
-- `serde_json::Value`, which the YAML reader and the Compose file share. A map is a list of entries
-- in the order of their keys, as in a `BTreeMap`; a float is kept as the text that it was read from.
pub mod Maps
pub mod Order
use dip_rust.Base.{
  length-map, ℤ, pos, negsuc, any_of_Has, any_sound, le→ltb-false, is_nil, subst, some_inj, ltb→lt,
  ltb-false→le, leb→le, ℕ, zero, suc, ◌+◌, ◌-◌, ◌*◌, ◌/◌, ◌%◌, ◌^◌, ◌≤◌, ◌<◌, min, ◌≡◌, refl, sym,
  ap, ◌∙◌, ◌≢◌, ◌↔◌, ◌⊎◌, inl, inr, Bool, true, false, not, ◌&&◌, ◌||◌, Option, none, some, List,
  [], ◌∷◌, ◌++◌, map, append_assoc, append-nil, arith, ltb, leb, ◌==◌, if◌then◌else◌, ==_iff,
  Bool-cases, &&-true, Option-cases, unwrap_or, or_else, is_some, length, get_elem?, take, drop,
  filter, any, find, Has, Has-append_left, Has-append_right, All, All-append, All-Has, All_of_Has,
  length-append, take-append-drop, take-length-append, drop-length-append, length-take, length-drop,
  get_elem?-lt,
}
use dip_rust.Text.{
  Text, codes, char_len, byte_len, text_eq, is_empty, strip_prefix, starts_with, ends_with,
  contains_char, contains, is_whitespace, trim_start_by, keep_unless, trim_end_by, trim_start,
  trim_end, trim, trim_char, split_once, cons_to_first, split, before, join, drop_cr, lines_from,
  lines, replace_char, ascii_lower, to_ascii_lowercase, eq_ignore_ascii_case,
}

mutual
  pub data Value : Type 0 where
    null : Value
    bool : Bool → Value
    int : ℤ → Value
    float : Text → Value
    string : Text → Value
    array : Items → Value
    object : Fields → Value

  pub data Items : Type 0 where
    no_items : Items
    item : Value → Items → Items

  pub data Fields : Type 0 where
    no_fields : Fields
    field : Text → Value → Fields → Fields

-- `str`'s order, by code points.
unfoldable pub text_lt : Text → Text → Bool
text_lt [] [] = false
text_lt [] (d ∷ t) = true
text_lt (c ∷ s) [] = false
text_lt (c ∷ s) (d ∷ t) = let rest = text_lt s t in if c == d then rest else ltb c d

-- `Map::get` and `Map::insert`.
unfoldable pub get : Text → Fields → Option Value
get key no_fields = none
get key (field k v fields) = let rest = get key fields in if text_eq key k then some v else rest

unfoldable pub insert : Text → Value → Fields → Fields
insert key value no_fields = field key value no_fields
insert key value (field k v fields) =
    let rest = insert key value fields in
    if text_eq key k
    then field key value fields
    else if text_lt key k
    then field key value (field k v fields)
    else field k v rest

-- `entry(key).or_insert(value)`.
abbrev pub insert_unless : Option Value → Text → Value → Fields → Fields
insert_unless (some v) key value fields = fields
insert_unless none key value fields = insert key value fields

unfoldable pub insert_new : Text → Value → Fields → Fields
unfolding get insert
insert_new key value fields = insert_unless (get key fields) key value fields

-- The insertion of all entries of a map, in their order.
unfoldable pub insert_all : Fields → Fields → Fields
insert_all no_fields into = into
insert_all (field k v fields) into = insert_all fields (insert k v into)

unfoldable pub insert_all_new : Fields → Fields → Fields
unfolding insert_new
insert_all_new no_fields into = into
insert_all_new (field k v fields) into = insert_all_new fields (insert_new k v into)

unfoldable pub items_of : List Value → Items
items_of [] = no_items
items_of (v ∷ values) = item v (items_of values)

unfoldable pub values_of : Items → List Value
values_of no_items = []
values_of (item v items) = v ∷ values_of items

unfoldable pub entries_of : Fields → List (Text × Value)
entries_of no_fields = []
entries_of (field k v fields) = (k, v) ∷ entries_of fields

-- `as_str`, `as_object` and `as_array`.
abbrev pub as_str : Value → Option Text
as_str (string s) = some s
as_str _ = none

abbrev pub as_object : Value → Option Fields
as_object (object fields) = some fields
as_object _ = none

abbrev pub as_array : Value → Option (List Value)
as_array (array items) = some (values_of items)
as_array _ = none

abbrev pub as_bool : Value → Option Bool
as_bool (bool b) = some b
as_bool _ = none
