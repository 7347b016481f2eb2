-- ===== src/Yaml/Block/Merging.antt =====
-- Which entry wins in a mapping with merge keys.
use dip_rust.Base.{ℕ, ◌≡◌, false, Option, none, some, List, [], ◌∷◌, if◌then◌else◌, or_else}
use dip_rust.Text.{Text, codes, text_eq}
use dip_rust.Json.{Value, Fields, object, get, insert, insert_all_new}
use dip_rust.Yaml.Result.{Result, ok, ◌>>=◌}
use dip_rust.Yaml.Flow.{External}
use dip_rust.Yaml.Block.{Maps, add_entry}

-- The first of some maps that has a key.
abbrev pub first_of : Text → List Fields → Option Value
first_of key [] = none
first_of key (m ∷ maps) = or_else (get key m) (first_of key maps)

-- The entry of a value that is a mapping.
abbrev pub entry : Text → Value → Option Value
entry key (object m) = get key m
entry key v = none

abbrev merged_into : Fields → List Fields → Fields
merged_into m [] = m
merged_into m (source ∷ sources) = merged_into (insert_all_new source m) sources

-- The entries of a mapping, added one after the other.
abbrev pub Entries : Type 0
Entries = List (Text × Value)

abbrev pub add_entries : External → ℕ → Entries → Maps → Result Maps
add_entries ext line_no [] maps = ok maps
add_entries ext line_no ((key, value) ∷ entries) maps =
    add_entry ext line_no key value maps >>= add_entries ext line_no entries

abbrev pub IsOwn : Text × Value → Type 0
IsOwn (key, value) = text_eq key (codes "<<") ≡ false

-- The last value that the entries give a key.
abbrev pub last_of : Text → Entries → Option Value
last_of key [] = none
last_of key ((k, v) ∷ entries) =
    or_else (last_of key entries) (if text_eq key k then some v else none)

abbrev own_of : Entries → Fields → Fields
own_of [] own = own
own_of ((k, v) ∷ entries) own = own_of entries (insert k v own)

module _ (ext : External) (line_no : ℕ) where
  -- What a merge key's value adds, if it names some maps.
  abbrev Merges : Value → List Fields → Type 0
  Merges value maps =
      (own merged : Fields)
      → add_entry ext line_no (codes "<<") value (own, merged) ≡ ok (own, merged_into merged maps)
