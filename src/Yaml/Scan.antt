-- ===== src/Yaml/Scan.antt =====
-- The helpers on lines: comments, quoted strings, keys, words and brackets.
pub mod Quotes
use dip_rust.Base.{
  length-map, ℤ, pos, negsuc, any_of_Has, any_sound, le→ltb-false, is_nil, subst, some_inj, ltb→lt,
  ltb-false→le, leb→le, ℕ, zero, suc, ◌+◌, ◌-◌, ◌*◌, ◌/◌, ◌%◌, ◌^◌, ◌≤◌, ◌<◌, min, ◌≡◌, refl, sym,
  ap, ◌∙◌, ◌≢◌, ◌↔◌, ◌⊎◌, inl, inr, Bool, true, false, not, ◌&&◌, ◌||◌, Option, none, some, List,
  [], ◌∷◌, ◌++◌, map, append_assoc, append-nil, arith, ltb, leb, ◌==◌, if◌then◌else◌, ==_iff,
  Bool-cases, &&-true, Option-cases, unwrap_or, or_else, is_some, length, get_elem?, take, drop,
  filter, any, find, Has, Has-append_left, Has-append_right, All, All-append, All-Has, All_of_Has,
  length-append, take-append-drop, take-length-append, drop-length-append, length-take, length-drop,
  get_elem?-lt,
}
use dip_rust.Text.{
  Text, codes, char_len, byte_len, text_eq, is_empty, strip_prefix, starts_with, ends_with,
  contains_char, contains, is_whitespace, trim_start_by, keep_unless, trim_end_by, trim_start,
  trim_end, trim, trim_char, split_once, cons_to_first, split, before, join, drop_cr, lines_from,
  lines, replace_char, ascii_lower, to_ascii_lowercase, eq_ignore_ascii_case,
}
use dip_rust.Json.{
  Value, Items, Fields, null, bool, int, float, string, array, object, no_items, item, no_fields,
  field, get, insert, insert_new, insert_all, insert_all_new, items_of, values_of, entries_of,
  as_str, as_object, as_array, as_bool, text_lt,
}
use dip_rust.Yaml.Result.{
  Result, ok, failed, out_of_fuel, ◌>>=◌, Ends, Ends->>=, Ends-if, Ends-ne_out_of_fuel,
}

-- The flags `in_single` and `in_double`, and that a backslash in double quotes came last.
pub data Mode : Type 0 where
  outside : Mode
  in_single : Mode
  in_double : Mode
  escaped : Mode

unfoldable pub next_mode : Mode → ℕ → Mode
next_mode outside c = if c == b'\'' then in_single else if c == b'"' then in_double else outside
next_mode in_single c = if c == b'\'' then outside else in_single
next_mode in_double c = if c == b'"' then outside else if c == b'\\' then escaped else in_double
next_mode escaped c = in_double

abbrev pub is_outside : Mode → Bool
is_outside outside = true
is_outside _ = false

-- `start`: at the beginning, or behind a space or a tab.
unfoldable pub strip_from : Mode → (start : Bool) → Text → Text
unfolding next_mode
strip_from mode start [] = []
strip_from mode start (c ∷ s) =
    let rest = strip_from (next_mode mode c) (c == b' ' || c == b'\t') s in
    if c == b'#' && is_outside mode && start then [] else c ∷ rest

unfoldable pub strip_comment : Text → Text
unfolding strip_from
strip_comment text = strip_from outside true text

abbrev pub is_quote : ℕ → Bool
is_quote c = c == b'"' || c == b'\''

-- The first character is one of some.
abbrev pub head_is : (ℕ → Bool) → Text → Bool
head_is test [] = false
head_is test (c ∷ s) = test c

abbrev pub cons_token : ℕ → Text × Text → Text × Text
cons_token c (token, rest) = (c ∷ token, rest)

-- The loops of `take_quoted` behind the first quote. In single quotes, a doubled quote is one.
unfoldable pub take_single : ℕ → Text → Result (Text × Text)
take_single line_no [] = failed line_no (codes "unterminated quoted string")
take_single line_no (c ∷ []) =
    if c == b'\'' then ok ([], []) else failed line_no (codes "unterminated quoted string")
take_single line_no (c ∷ d ∷ s) =
    let next = take_single line_no (d ∷ s) in
    let after = take_single line_no s in
    if c == b'\''
    then (if d == b'\'' then (after >>= λ r. ok (cons_token b'\'' r)) else ok ([], d ∷ s))
    else (next >>= λ r. ok (cons_token c r))

-- The character of an escape.
unfoldable pub unescape : ℕ → Option ℕ
unescape c =
    if c == b'n'
    then some b'\n'
    else if c == b't'
    then some b'\t'
    else if c == b'r'
    then some b'\r'
    else if c == b'0'
    then some 0
    else if c == b'\\'
    then some b'\\'
    else if c == b'"'
    then some b'"'
    else none

unfoldable pub take_double : ℕ → Text → Result (Text × Text)
unfolding unescape
take_double line_no [] = failed line_no (codes "unterminated quoted string")
take_double line_no (c ∷ []) =
    if c == b'"' then ok ([], []) else failed line_no (codes "unterminated quoted string")
take_double line_no (c ∷ d ∷ s) =
    let next = take_double line_no (d ∷ s) in
    let after = take_double line_no s in
    if c == b'"'
    then ok ([], d ∷ s)
    else if c == b'\\'
    then elim (unescape d) [
      | some e ↦ after >>= λ r. ok (cons_token e r)
      | none ↦ failed line_no (codes "unsupported escape '\\" ++ (d ∷ codes "'"))
    ]
    else (next >>= λ r. ok (cons_token c r))

-- The caller has seen a quote, so that the text is not empty.
unfoldable pub take_quoted : ℕ → Text → Result (Text × Text)
unfolding take_single take_double
take_quoted line_no [] = failed line_no (codes "unterminated quoted string")
take_quoted line_no (q ∷ s) = if q == b'\'' then take_single line_no s else take_double line_no s

-- The first `:` with a space or the end behind it.
unfoldable pub find_colon : Text → Option (Text × Text)
find_colon [] = none
find_colon (c ∷ s) =
    let later = find_colon s in
    if c == b':' && (is_empty s || head_is (λ d. d == b' ') s)
    then some ([], s)
    else elim later [ none ↦ none | some r ↦ some (cons_token c r) ]

-- What follows a quoted key is a value, if it is a `:` with a space or the end behind it.
unfoldable pub key_end : Text → Text → Option (Text × Text)
key_end key [] = none
key_end key (c ∷ rest) =
    if c == b':' && (is_empty rest || head_is (λ d. d == b' ') rest)
    then some (key, trim_start rest)
    else none

abbrev pub plain_key : Text × Text → Option (Text × Text)
plain_key (before, rest) =
    let key = trim_end before in if is_empty key then none else some (key, trim_start rest)

unfoldable pub split_key : Text → ℕ → Result (Option (Text × Text))
unfolding key_end
split_key text line_no =
    if head_is (λ c. c == b'[' || c == b'{' || c == b'#') text
    then ok none
    else if head_is is_quote text
    then (take_quoted line_no text >>= λ r. ok (key_end r.0 (trim_start r.1)))
    else elim (find_colon text) [ none ↦ ok none | some r ↦ ok (plain_key r) ]

unfoldable pub split_word : Text → Text × Text
split_word [] = ([], [])
split_word (c ∷ s) =
    let rest = split_word s in if c == b' ' then ([], trim_start (c ∷ s)) else cons_token c rest

-- The depth of the brackets, up to one that closes too much.
unfoldable pub depth_from : ℕ → Mode → ℕ → Text → Result ℕ
unfolding next_mode
depth_from line_no mode depth [] = ok depth
depth_from line_no mode depth (c ∷ s) =
    let after = next_mode mode c in
    let same = depth_from line_no after depth s in
    let deeper = depth_from line_no after (suc depth) s in
    let shallower = depth_from line_no after (depth - 1) s in
    if is_outside mode && (c == b'[' || c == b'{')
    then deeper
    else if is_outside mode && (c == b']' || c == b'}')
    then (if depth == 0
        then failed line_no (codes "unbalanced brackets in flow collection")
        else shallower)
    else same

unfoldable pub flow_depth : Text → ℕ → Result ℕ
unfolding depth_from
flow_depth text line_no = depth_from line_no outside 0 text
