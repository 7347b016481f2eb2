-- ===== src/Compose/Variables.antt =====
-- The variables of a Compose file: `interpolate_value`, `interpolate_string` and
-- `resolve_env_expr`.
pub mod Substitution
use dip_rust.Env.{Env, lookup}
use dip_rust.Base.{
  length-map, ℤ, pos, negsuc, any_of_Has, any_sound, le→ltb-false, is_nil, subst, some_inj, ltb→lt,
  ltb-false→le, leb→le, ℕ, zero, suc, ◌+◌, ◌-◌, ◌*◌, ◌/◌, ◌%◌, ◌^◌, ◌≤◌, ◌<◌, min, ◌≡◌, refl, sym,
  ap, ◌∙◌, ◌≢◌, ◌↔◌, ◌⊎◌, inl, inr, Bool, true, false, not, ◌&&◌, ◌||◌, Option, none, some, List,
  [], ◌∷◌, ◌++◌, map, append_assoc, append-nil, arith, ltb, leb, ◌==◌, if◌then◌else◌, ==_iff,
  Bool-cases, &&-true, Option-cases, unwrap_or, or_else, is_some, length, get_elem?, take, drop,
  filter, any, find, Has, Has-append_left, Has-append_right, All, All-append, All-Has, All_of_Has,
  length-append, take-append-drop, take-length-append, drop-length-append, length-take, length-drop,
  get_elem?-lt,
}
use dip_rust.Text.{
  Text, codes, char_len, byte_len, text_eq, is_empty, strip_prefix, starts_with, ends_with,
  contains_char, contains, is_whitespace, trim_start_by, keep_unless, trim_end_by, trim_start,
  trim_end, trim, trim_char, split_once, cons_to_first, split, before, join, drop_cr, lines_from,
  lines, replace_char, ascii_lower, to_ascii_lowercase, eq_ignore_ascii_case,
}
use dip_rust.Json.{
  Value, Items, Fields, null, bool, int, float, string, array, object, no_items, item, no_fields,
  field, get, insert, insert_new, insert_all, insert_all_new, items_of, values_of, entries_of,
  as_str, as_object, as_array, as_bool, text_lt,
}

-- `split_once(":-")`.
abbrev pub at_dash : ℕ → Text → Option (Text × Text)
at_dash c [] = none
at_dash c (d ∷ s) = if c == b':' && d == b'-' then some ([], s) else none

abbrev pub cons_left : ℕ → Option (Text × Text) → Option (Text × Text)
cons_left c none = none
cons_left c (some (key, default)) = some (c ∷ key, default)

unfoldable pub split_default : Text → Option (Text × Text)
split_default [] = none
split_default (c ∷ s) = or_else (at_dash c s) (cons_left c (split_default s))

abbrev pub non_empty : Option Text → Text → Text
non_empty none default = default
non_empty (some []) default = default
non_empty (some (c ∷ value)) default = c ∷ value

unfoldable pub resolve_unset : Option (Text × Text) → Text → Env → Text
unfolding lookup
resolve_unset (some (key, default)) expr env = unwrap_or (lookup key env) default
resolve_unset none expr env = unwrap_or (lookup expr env) []

unfoldable pub resolve_empty : Option (Text × Text) → Text → Env → Text
unfolding resolve_unset split_once lookup
resolve_empty (some (key, default)) expr env = non_empty (lookup key env) default
resolve_empty none expr env = resolve_unset (split_once b'-' expr) expr env

unfoldable pub resolve_env_expr : Text → Env → Text
unfolding resolve_empty split_default
resolve_env_expr expr env = resolve_empty (split_default expr) expr env

-- The searches of the loop for `${` and for `}` as one walk: outside, or behind a `${` with the
-- expression so far.
pub data Place : Type 0 where
  text : Place
  expression : Text → Place

unfoldable pub walk : Env → Place → Text → Text
unfolding resolve_env_expr
walk env text [] = []
walk env text (c ∷ []) = c ∷ []
walk env text (c ∷ d ∷ s) =
    let inner = walk env (expression []) s in
    let outer = walk env text (d ∷ s) in if c == b'$' && d == b'{' then inner else c ∷ outer
walk env (expression expr) [] = codes "${" ++ expr
walk env (expression expr) (c ∷ s) =
    let outer = walk env text s in
    let inner = walk env (expression (expr ++ c ∷ [])) s in
    if c == b'}' then resolve_env_expr expr env ++ outer else inner

unfoldable pub interpolate_string : Text → Env → Text
unfolding walk
interpolate_string input env = walk env text input

unfoldable mutual
  pub interpolate_value : Env → Value → Value
  interpolate_value env null = null
  interpolate_value env (bool b) = bool b
  interpolate_value env (int i) = int i
  interpolate_value env (float t) = float t
  interpolate_value env (string s) = string (interpolate_string s env)
  interpolate_value env (array items) = array (interpolate_items env items)
  interpolate_value env (object known) = object (interpolate_fields env known)

  pub interpolate_items : Env → Items → Items
  interpolate_items env no_items = no_items
  interpolate_items env (item v items) =
      item (interpolate_value env v) (interpolate_items env items)

  pub interpolate_fields : Env → Fields → Fields
  interpolate_fields env no_fields = no_fields
  interpolate_fields env (field k v rest) =
      field k (interpolate_value env v) (interpolate_fields env rest)
