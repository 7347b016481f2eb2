-- ===== src/Compose/Services/Lists.antt =====
-- The two forms of labels and of the environment.
use dip_rust.Base.{◌≡◌, false, List, [], ◌∷◌, ◌++◌}
use dip_rust.Text.{Text, contains_char, trim}
use dip_rust.Json.{Items, Fields, string, no_items, item, no_fields, field}

-- Entries as a map, and as a list of `key=value`.
abbrev pub as_map : List (Text × Text) → Fields
as_map [] = no_fields
as_map ((key, value) ∷ entries) = field key (string value) (as_map entries)

abbrev pub as_list : List (Text × Text) → Items
as_list [] = no_items
as_list ((key, value) ∷ entries) = item (string (key ++ b'=' ∷ value)) (as_list entries)

-- No `=` in the key, and no space around the key and the value.
abbrev pub Plain : Text × Text → Type 0
Plain (key, value) = (contains_char b'=' key ≡ false) × (trim key ≡ key) × (trim value ≡ value)
