-- ===== src/Yaml/Scalar.antt =====
-- The types of plain scalars.
pub mod Numbers
use dip_rust.Text.Decimal.{decimal_value}
use dip_rust.Base.{
  length-map, ℤ, pos, negsuc, any_of_Has, any_sound, le→ltb-false, is_nil, subst, some_inj, ltb→lt,
  ltb-false→le, leb→le, ℕ, zero, suc, ◌+◌, ◌-◌, ◌*◌, ◌/◌, ◌%◌, ◌^◌, ◌≤◌, ◌<◌, min, ◌≡◌, refl, sym,
  ap, ◌∙◌, ◌≢◌, ◌↔◌, ◌⊎◌, inl, inr, Bool, true, false, not, ◌&&◌, ◌||◌, Option, none, some, List,
  [], ◌∷◌, ◌++◌, map, append_assoc, append-nil, arith, ltb, leb, ◌==◌, if◌then◌else◌, ==_iff,
  Bool-cases, &&-true, Option-cases, unwrap_or, or_else, is_some, length, get_elem?, take, drop,
  filter, any, find, Has, Has-append_left, Has-append_right, All, All-append, All-Has, All_of_Has,
  length-append, take-append-drop, take-length-append, drop-length-append, length-take, length-drop,
  get_elem?-lt,
}
use dip_rust.Text.{
  Text, codes, char_len, byte_len, text_eq, is_empty, strip_prefix, starts_with, ends_with,
  contains_char, contains, is_whitespace, trim_start_by, keep_unless, trim_end_by, trim_start,
  trim_end, trim, trim_char, split_once, cons_to_first, split, before, join, drop_cr, lines_from,
  lines, replace_char, ascii_lower, to_ascii_lowercase, eq_ignore_ascii_case,
}
use dip_rust.Json.{
  Value, Items, Fields, null, bool, int, float, string, array, object, no_items, item, no_fields,
  field, get, insert, insert_new, insert_all, insert_all_new, items_of, values_of, entries_of,
  as_str, as_object, as_array, as_bool, text_lt,
}
use dip_rust.Yaml.Result.{
  Result, ok, failed, out_of_fuel, ◌>>=◌, Ends, Ends->>=, Ends-if, Ends-ne_out_of_fuel,
}
use dip_rust.Yaml.Scan.{
  Mode, outside, in_single, in_double, escaped, next_mode, is_outside, strip_from, strip_comment,
  head_is, cons_token, take_quoted, take_single, take_double, unescape, is_quote, find_colon,
  key_end, plain_key, split_key, split_word, depth_from, flow_depth,
}

abbrev pub is_digit : ℕ → Bool
is_digit c = leb b'0' c && leb c b'9'

abbrev pub all_digits : Text → Bool
all_digits [] = true
all_digits (c ∷ s) = is_digit c && all_digits s

-- `parse::<i64>()`: a sign or none, digits, and a value in the range.
abbrev pub in_range : Bool → ℕ → Option ℤ
in_range true n =
    if n == 0 then some (pos 0) else if leb n (2 ^ 63) then some (negsuc (n - 1)) else none
in_range false n = if ltb n (2 ^ 63) then some (pos n) else none

unfoldable pub parse_digits : (negative : Bool) → Text → Option ℤ
parse_digits negative s =
    if not (is_empty s) && all_digits s then in_range negative (decimal_value 0 s) else none

unfoldable pub parse_i64 : Text → Option ℤ
unfolding parse_digits
parse_i64 [] = none
parse_i64 (c ∷ s) =
    if c == b'-'
    then parse_digits true s
    else if c == b'+'
    then parse_digits false s
    else parse_digits false (c ∷ s)

abbrev pub one_of : Text → List Text → Bool
one_of s names = any (λ name. text_eq s name) names

-- `is_f64` says which texts `parse::<f64>()` reads as a finite number.
module _ (is_f64 : Text → Bool) where
  unfoldable pub plain_scalar : Text → Value
  unfolding parse_i64
  plain_scalar text =
      if one_of text ([] ∷ codes "~" ∷ codes "null" ∷ codes "Null" ∷ codes "NULL" ∷ [])
      then null
      else if one_of text (codes "true" ∷ codes "True" ∷ codes "TRUE" ∷ [])
      then bool true
      else if one_of text (codes "false" ∷ codes "False" ∷ codes "FALSE" ∷ [])
      then bool false
      else if head_is (λ c. is_digit c || c == b'-' || c == b'+' || c == b'.') text
      then elim (parse_i64 text) [
        | some i ↦ int i
        | none ↦ if any is_digit text && is_f64 text then float text else string text
      ]
      else string text

  unfoldable pub parse_scalar_token : Text → ℕ → Result Value
  unfolding plain_scalar
  parse_scalar_token text line_no =
      if head_is is_quote text
      then (take_quoted line_no text >>= λ r.
          if is_empty (trim r.1)
          then ok (string r.0)
          else failed line_no
              (codes "unexpected content after quoted string: '" ++ (trim r.1 ++ codes "'")))
      else ok (plain_scalar text)
