-- ===== src/Env/Container.antt =====
-- The environment of a container, as `parse_env_json_array` of src/utils/env.rs reads it.
use dip_rust.Base.{
  ℕ, ◌≡◌, refl, ap, ◌∙◌, inl, inr, true, false, ◌||◌, Option, none, some, List, [], ◌∷◌, ◌++◌, map,
  arith, ◌==◌, ==_iff, Bool-cases, ◌>>=◌, All, All-append,
}
use dip_rust.Env.Lookup.{last_value, lookup-collect_onto, or_else-none}
use dip_rust.Env.RoundTrip.{IsKey, not_space, strip_export_none, filter_map-some}
use dip_rust.Env.{
  lookup, collect_onto, filter_map, parse_trimmed, strip_quotes, parse_env_line,
  parse_env_json_array,
}
use dip_rust.Text.Split.{split_once-append, split_once-none}
use dip_rust.Text.Trim.{trim_start_none, trim_end_none}
use dip_rust.Text.{Text, codes, strip_prefix, starts_with, contains_char, is_whitespace, trim}

-- An entry: an assignment, a word that is none, or a value that is no string.
pub data Entry : Type 0 where
  assigned : (first : ℕ) → (others value : Text) → Entry
  word : (first : ℕ) → (others : Text) → Entry
  no_string : Entry

abbrev pub entry_text : Entry → Option Text
entry_text (assigned first others value) = some ((first ∷ others) ++ (b'=' ∷ value))
entry_text (word first others) = some (first ∷ others)
entry_text no_string = none

abbrev pub IsVisible : Text → Type 0
IsVisible s = All (λ c. is_whitespace c ≡ false) s

abbrev pub IsUnquoted : Text → Type 0
IsUnquoted [] = Unit
IsUnquoted (c ∷ s) = (c == b'"') || (c == b'\'') ≡ false

abbrev pub IsEntry : Entry → Type 0
IsEntry (assigned first others value) = IsKey first others × IsVisible value × IsUnquoted value
IsEntry (word first others) = IsKey first others
IsEntry no_string = Unit

-- The assignments among some entries.
abbrev pub assigned_pairs : List Entry → List (Text × Text)
assigned_pairs [] = []
assigned_pairs (assigned first others value ∷ entries) =
    (first ∷ others, value) ∷ assigned_pairs entries
assigned_pairs (word first others ∷ entries) = assigned_pairs entries
assigned_pairs (no_string ∷ entries) = assigned_pairs entries

trim_none : (s : Text) → IsVisible s → trim s ≡ s
trim_none s h = rw (trim_start_none s h) (trim_end_none s h)

strip_quotes_none : (value : Text) → IsUnquoted value → strip_quotes value ≡ value
unfolding strip_quotes
strip_quotes_none [] h = refl
strip_quotes_none (c ∷ []) h = refl
strip_quotes_none (c ∷ d ∷ s) h = rw h refl

parse_env_line-assigned :
    (first : ℕ) (others value : Text)
    → IsEntry (assigned first others value)
    → parse_env_line ((first ∷ others) ++ (b'=' ∷ value)) ≡ some (first ∷ others, value)
unfolding parse_env_line parse_trimmed starts_with contains_char
parse_env_line-assigned first others value (key, visible, unquoted) =
    ap parse_trimmed (
      trim_none ((first ∷ others) ++ (b'=' ∷ value)) (
        All-append (λ c. is_whitespace c ≡ false) (first ∷ others) (b'=' ∷ value) key.no_space
          (unfold is_whitespace in refl, visible)))
    ∙ rw
        (
          key.no_comment,
          strip_export_none (codes "export ") (first ∷ others) value refl refl key.no_space,
          split_once-append b'=' (first ∷ others) value key.no_equals,
          trim_none (first ∷ others) key.no_space,
          trim_none value visible,
          strip_quotes_none value unquoted,
        )
        refl

strip_prefix_space :
    (prefix s : Text)
    → contains_char b' ' prefix ≡ true
    → IsVisible s
    → strip_prefix prefix s ≡ none
unfolding strip_prefix contains_char
strip_prefix_space [] s h k = cc
strip_prefix_space (p ∷ prefix) [] h k = refl
strip_prefix_space (p ∷ prefix) (c ∷ s) h (v, k) = elim (Bool-cases (p == c)) [
  | inr f ↦ rw f refl
  | inl t ↦ rw t (strip_prefix_space prefix s (ground (arith, (==_iff p c).0 t, not_space c v)) k)
]

parse_env_line-word :
    (first : ℕ) (others : Text) → IsKey first others → parse_env_line (first ∷ others) ≡ none
unfolding parse_env_line parse_trimmed starts_with contains_char
parse_env_line-word first others key =
    ap parse_trimmed (trim_none (first ∷ others) key.no_space)
    ∙ rw
        (
          key.no_comment,
          strip_prefix_space (codes "export ") (first ∷ others) refl key.no_space,
          split_once-none b'=' (first ∷ others) key.no_equals,
        )
        refl

filter_map-none :
    {A B : Type 0} (f : A → Option B) (x : A) (xs : List A)
    → f x ≡ none
    → filter_map f (x ∷ xs) ≡ filter_map f xs
unfolding filter_map
filter_map-none {A} {B} f x xs h =
    ap (λ o. elim o as (λ _. List B) [ none ↦ filter_map f xs | some z ↦ z ∷ filter_map f xs ]) h

abbrev read : Option Text → Option (Text × Text)
read entry = entry >>= parse_env_line

filter_map-entries :
    (entries : List Entry)
    → All IsEntry entries
    → filter_map read (map entry_text entries) ≡ assigned_pairs entries
unfolding filter_map
filter_map-entries [] h = refl
filter_map-entries (assigned first others value ∷ entries) (a, h) =
    filter_map-some read (entry_text (assigned first others value)) (map entry_text entries)
      (parse_env_line-assigned first others value a)
    ∙ ap (◌∷◌ (first ∷ others, value)) (filter_map-entries entries h)
filter_map-entries (word first others ∷ entries) (key, h) =
    filter_map-none read (entry_text (word first others)) (map entry_text entries)
      (parse_env_line-word first others key)
    ∙ filter_map-entries entries h
filter_map-entries (no_string ∷ entries) (a, h) = filter_map-entries entries h

-- In a container's environment, a key has the value of the last entry that assigns to it, and has
-- none if there is no such entry. An entry is `KEY=VALUE`, where the value may hold more equals signs
-- but no whitespace and no quote in front, or a word without an equals sign, or no string; the last
-- two count for nothing. A JSON value that is no array gives no variables.
pub parse_env_json_array_lem :
    (entries : List Entry) (k : Text)
    → All IsEntry entries
    → (lookup k (parse_env_json_array (some (map entry_text entries)))
        ≡ last_value k (assigned_pairs entries))
      × (lookup k (parse_env_json_array none) ≡ none)
unfolding parse_env_json_array lookup
parse_env_json_array_lem entries k h = (
  ap (λ pairs. lookup k (collect_onto [] pairs)) (filter_map-entries entries h)
      ∙ lookup-collect_onto (assigned_pairs entries) [] k
      ∙ or_else-none _,
  refl,
)
