-- ===== src/Db/Sql.antt =====
-- The texts that src/db/migrate.rs writes into SQL: identifiers, strings, bytes and fractions of a
-- second.
pub mod Quoting
pub mod Escapes
pub mod Digits
use dip_rust.Base.{
  any_of_Has, any_sound, le→ltb-false, is_nil, subst, some_inj, ltb→lt, ltb-false→le, leb→le, ℕ,
  zero, suc, ◌+◌, ◌-◌, ◌*◌, ◌/◌, ◌%◌, ◌^◌, ◌≤◌, ◌<◌, min, ◌≡◌, refl, sym, ap, ◌∙◌, ◌≢◌, ◌↔◌, ◌⊎◌,
  inl, inr, Bool, true, false, not, ◌&&◌, ◌||◌, Option, none, some, List, [], ◌∷◌, ◌++◌, map,
  append_assoc, append-nil, arith, ltb, leb, ◌==◌, if◌then◌else◌, ==_iff, Bool-cases, &&-true,
  Option-cases, ◌>>=◌, unwrap_or, or_else, is_some, length, get_elem?, take, drop, filter, any,
  find, Has, Has-append_left, Has-append_right, All, All-append, All-Has, All_of_Has, length-append,
  take-append-drop, take-length-append, drop-length-append, length-take, length-drop, get_elem?-lt,
}
use dip_rust.Text.Decimal.{to_decimal}
use dip_rust.Text.{
  Text, codes, char_len, byte_len, text_eq, is_empty, strip_prefix, starts_with, ends_with,
  contains_char, contains, is_whitespace, trim_start_by, keep_unless, trim_end_by, trim_start,
  trim_end, trim, trim_char, split_once, cons_to_first, split, before, join, drop_cr, lines_from,
  lines, replace_char, ascii_lower, to_ascii_lowercase, eq_ignore_ascii_case,
}

-- `replace('"', "\"\"")`, in quotes.
unfoldable pub pg_ident : Text → Text
pg_ident name = b'"' ∷ (replace_char b'"' (codes "\"\"") name ++ (b'"' ∷ []))

unfoldable pub pg_string_literal : Text → Text
pg_string_literal s = b'\'' ∷ (replace_char b'\'' (codes "''") s ++ (b'\'' ∷ []))

unfoldable pub mysql_ident : Text → Text
mysql_ident name = b'`' ∷ (replace_char b'`' (codes "``") name ++ (b'`' ∷ []))

unfoldable pub mysql_escape_str : Text → Text
mysql_escape_str s =
    let slashes = replace_char b'\\' (codes "\\\\") s in
    let quotes = replace_char b'\'' (codes "\\'") slashes in
    let nuls = replace_char 0 (codes "\\0") quotes in
    let newlines = replace_char b'\n' (codes "\\n") nuls in
    replace_char b'\r' (codes "\\r") newlines

-- The literal of a text in MySQL.
unfoldable pub mysql_string_literal : Text → Text
mysql_string_literal s = b'\'' ∷ (mysql_escape_str s ++ (b'\'' ∷ []))

-- `{b:02x}` of a byte.
abbrev pub hex_digit : ℕ → ℕ
hex_digit d = if ltb d 10 then b'0' + d else b'a' + (d - 10)

unfoldable pub hex_encode : List ℕ → Text
hex_encode [] = []
hex_encode (b ∷ bytes) = hex_digit (b / 16) ∷ hex_digit (b % 16) ∷ hex_encode bytes

-- `{:0w$}` of a number.
unfoldable pub zeros : ℕ → Text
zeros zero = []
zeros (suc n) = b'0' ∷ zeros n

unfoldable pub zero_padded : ℕ → ℕ → Text
zero_padded w n = zeros (w - length (to_decimal n)) ++ to_decimal n

unfoldable pub push_subsecond : Text → ℕ → Text
push_subsecond out nanos =
    if nanos == 0
    then out
    else if nanos % 1_000_000 == 0
    then out ++ (b'.' ∷ zero_padded 3 (nanos / 1_000_000))
    else if nanos % 1_000 == 0
    then out ++ (b'.' ∷ zero_padded 6 (nanos / 1_000))
    else out ++ (b'.' ∷ zero_padded 9 nanos)
