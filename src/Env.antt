-- ===== src/Env.antt =====
-- The parsing of environment files and of a container's environment, src/utils/env.rs. A `HashMap`
-- is a list of pairs with distinct keys; reading a file is left out.

pub mod RoundTrip
pub mod Lookup
pub mod Container
mod Tests
use dip_rust.Base.{
  ℕ, ◌-◌, ◌||◌, Option, none, some, List, [], ◌∷◌, ◌==◌, if◌then◌else◌, ◌>>=◌, unwrap_or, length,
  take,
}
use dip_rust.Text.{
  Text, codes, text_eq, is_empty, strip_prefix, starts_with, ends_with, trim, split_once, lines,
}

abbrev pub Env : Type 0
Env = List (Text × Text)

-- `HashMap::get`.
unfoldable pub lookup : Text → Env → Option Text
unfolding text_eq
lookup key [] = none
lookup key ((k, v) ∷ env) = if text_eq key k then some v else lookup key env

-- `HashMap::insert`, which replaces the value of a key that is there.
unfoldable pub insert : Text → Text → Env → Env
unfolding text_eq
insert key value [] = (key, value) ∷ []
insert key value ((k, v) ∷ env) =
    let rest = insert key value env in if text_eq key k then (k, value) ∷ env else (k, v) ∷ rest

-- `collect` of pairs, in their order.
unfoldable pub collect_onto : Env → List (Text × Text) → Env
collect_onto env [] = env
collect_onto env ((k, v) ∷ pairs) = collect_onto (insert k v env) pairs

unfoldable pub filter_map {ℓ κ} : {A : Type ℓ} {B : Type κ} → (A → Option B) → List A → List B
filter_map f [] = []
filter_map f (x ∷ xs) = let rest = filter_map f xs in elim (f x) [ none ↦ rest | some y ↦ y ∷ rest ]

-- One pair of quotes of the same kind at both ends is taken off.
unfoldable pub unquote_by : ℕ → Text → Text
unquote_by q s = if ends_with (q ∷ []) s then take (length s - 1) s else q ∷ s

unfoldable pub strip_quotes : Text → Text
unfolding unquote_by
strip_quotes [] = []
strip_quotes (c ∷ []) = c ∷ []
strip_quotes (c ∷ d ∷ s) = if c == b'"' || c == b'\'' then unquote_by c (d ∷ s) else c ∷ d ∷ s

-- A line without the spaces around it.
unfoldable pub parse_trimmed : Text → Option (Text × Text)
unfolding strip_quotes
parse_trimmed line =
    if is_empty line || starts_with (codes "#") line
    then none
    else elim (split_once b'=' (unwrap_or (strip_prefix (codes "export ") line) line)) [
      | none ↦ none
      | some (key, value) ↦ some (trim key, strip_quotes (trim value))
    ]

unfoldable pub parse_env_line : Text → Option (Text × Text)
parse_env_line raw = parse_trimmed (trim raw)

unfoldable pub parse_env_str : Text → Env
unfolding filter_map parse_env_line collect_onto
parse_env_str s = collect_onto [] (filter_map parse_env_line (lines s))

-- A JSON value that is no array is `none`, and an entry that is no string is `none`.
unfoldable pub parse_env_json_array : Option (List (Option Text)) → Env
unfolding filter_map parse_env_line collect_onto
parse_env_json_array none = []
parse_env_json_array (some entries) =
    collect_onto [] (filter_map (λ (entry : Option Text). entry >>= parse_env_line) entries)
