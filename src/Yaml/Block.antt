-- ===== src/Yaml/Block.antt =====
-- Block nodes: `parse_node`, `parse_mapping`, `parse_sequence` and `parse_value_after_key`. Each
-- call costs a unit of fuel; Block/Ending says how much is enough.
pub mod Sizes
pub mod Leaves
pub mod Merging
pub mod Steps
pub mod Ending
use dip_rust.Base.{
  length-map, ℤ, pos, negsuc, any_of_Has, any_sound, le→ltb-false, is_nil, subst, some_inj, ltb→lt,
  ltb-false→le, leb→le, ℕ, zero, suc, ◌+◌, ◌-◌, ◌*◌, ◌/◌, ◌%◌, ◌^◌, ◌≤◌, ◌<◌, min, ◌≡◌, refl, sym,
  ap, ◌∙◌, ◌≢◌, ◌↔◌, ◌⊎◌, inl, inr, Bool, true, false, not, ◌&&◌, ◌||◌, Option, none, some, List,
  [], ◌∷◌, ◌++◌, map, append_assoc, append-nil, arith, ltb, leb, ◌==◌, if◌then◌else◌, ==_iff,
  Bool-cases, &&-true, Option-cases, unwrap_or, or_else, is_some, length, get_elem?, take, drop,
  filter, any, find, Has, Has-append_left, Has-append_right, All, All-append, All-Has, All_of_Has,
  length-append, take-append-drop, take-length-append, drop-length-append, length-take, length-drop,
  get_elem?-lt,
}
use dip_rust.Text.{
  Text, codes, char_len, byte_len, text_eq, is_empty, strip_prefix, starts_with, ends_with,
  contains_char, contains, is_whitespace, trim_start_by, keep_unless, trim_end_by, trim_start,
  trim_end, trim, trim_char, split_once, cons_to_first, split, before, join, drop_cr, lines_from,
  lines, replace_char, ascii_lower, to_ascii_lowercase, eq_ignore_ascii_case,
}
use dip_rust.Json.{
  Value, Items, Fields, null, bool, int, float, string, array, object, no_items, item, no_fields,
  field, get, insert, insert_new, insert_all, insert_all_new, items_of, values_of, entries_of,
  as_str, as_object, as_array, as_bool, text_lt,
}
use dip_rust.Yaml.Result.{
  Result, ok, failed, out_of_fuel, ◌>>=◌, Ends, Ends->>=, Ends-if, Ends-ne_out_of_fuel,
}
use dip_rust.Yaml.Scan.{
  Mode, outside, in_single, in_double, escaped, next_mode, is_outside, strip_from, strip_comment,
  head_is, cons_token, take_quoted, take_single, take_double, unescape, is_quote, find_colon,
  key_end, plain_key, split_key, split_word, depth_from, flow_depth,
}
use dip_rust.Yaml.Scalar.{
  is_digit, all_digits, in_range, parse_digits, parse_i64, one_of, plain_scalar, parse_scalar_token,
}
use dip_rust.Yaml.Flow.{
  External, Anchors, anchor, alias_value, skip_spaces, take_plain_token, ends_token, ends_key,
  Opening, sequence, mapping, quoted, alias, plain, opening, Next, more, close, other, next,
  flow_key, flow_alias, value_open, value_at, seq_go, seq_next, seq_item, seq_at, map_go, map_next,
  map_value, map_colon, map_key, map_at, parse_value, parse_seq, parse_map, plain_token, flow_value,
  no_colon, string_token, in_array, in_object, with_item,
}
use dip_rust.Yaml.Flow.Tokens.{
  Left, length-trim_start_by, Left-map, Left-weaken, Left-take_quoted, Left-take_plain_token,
  cons_same, Left-take_single, Left-take_double,
}
use dip_rust.Yaml.Flow.Ending.{Left-flow_value}
use dip_rust.Yaml.Lines.{
  Line, State, without_cr, leading_spaces, read_line, read_lines, new, skip_blank, at_lines,
  define_anchor,
}
use dip_rust.Yaml.Literal.{
  Chomp, clip, strip, keep, chomping, spaces, with_line, collect_lines, before_content,
  split_blanks, fold_lines, newlines, chomp_body, scalar_body, parse_block_scalar,
}
use dip_rust.Yaml.Inline.{
  flow_lines, Start, star, ampersand, bracket, tag, token, start_of, inline_alias, inline_scalar,
  flow_end, inline_flow, inline_anchor, inline_open, inline_at, inline_value, parse_inline_value,
}

-- `line.text == "-" || line.text.starts_with("- ")`.
unfoldable pub is_dash : Text → Bool
unfolding text_eq starts_with
is_dash text = text_eq text (codes "-") || starts_with (codes "- ") text

abbrev pub is_marker : Text → Bool
is_marker text = text_eq text (codes "---") || text_eq text (codes "...")

-- What the next line with content starts, for a node with a least indentation.
pub data Node : Type 0 where
  shallow : Node
  dashes : Node
  keyed : Node
  single : Node

unfoldable pub node_of : ℕ → Line → Result Node
unfolding is_dash split_key
node_of min_indent l =
    if ltb (Line.indent l) min_indent
    then ok shallow
    else if is_dash (Line.text l)
    then ok dashes
    else (split_key (Line.text l) (Line.number l) >>= λ k. ok (if is_some k then keyed else single))

-- The key of a mapping's line and what stands behind it; `none` ends the mapping.
unfoldable pub mapping_line : ℕ → Line → Result (Option (Text × Text))
unfolding split_key
mapping_line indent l =
    if is_marker (Line.text l)
    then ok none
    else if ltb indent (Line.indent l)
    then failed (Line.number l) (codes "inconsistent indentation")
    else if ltb (Line.indent l) indent
    then ok none
    else (split_key (Line.text l) (Line.number l) >>= λ k.
        if is_some k
        then ok k
        else failed (Line.number l) (codes "expected 'key:', got '" ++ (Line.text l ++ codes "'")))

-- The merge key: the mappings of the value, in which the earlier ones win.
unfoldable pub merge_sources : External → ℕ → Value → Result (List Value)
merge_sources ext line_no (object known) = ok (object known ∷ [])
merge_sources ext line_no (array items) = ok (values_of items)
merge_sources ext line_no value =
    failed line_no
      (codes "'<<' expects a mapping or list of mappings, got " ++ External.display ext value)

unfoldable pub merge_source : ℕ → Value → Fields → Result Fields
unfolding insert_all_new
merge_source line_no (object known) merged = ok (insert_all_new known merged)
merge_source line_no value merged = failed line_no (codes "'<<' merge source is not a mapping")

unfoldable pub merge_all : ℕ → List Value → Fields → Result Fields
unfolding merge_source
merge_all line_no [] merged = ok merged
merge_all line_no (v ∷ values) merged =
    merge_source line_no v merged >>= λ m. merge_all line_no values m

-- The maps `own` and `merged`.
abbrev pub Maps : Type 0
Maps = Fields × Fields

unfoldable pub add_entry : External → ℕ → Text → Value → Maps → Result Maps
unfolding merge_sources merge_all insert
add_entry ext line_no key value (own, merged) =
    if text_eq key (codes "<<")
    then (merge_sources ext line_no value >>= λ sources.
        merge_all line_no sources merged >>= λ m. ok (own, m))
    else ok (insert key value own, merged)

unfoldable pub finish : Maps → Value
unfolding insert_all
finish (own, no_fields) = object own
finish (own, field k v rest) = object (insert_all own (field k v rest))

-- The lines of a sequence: the end, a `-` alone, or a `-` with content.
pub data Dash : Type 0 where
  ends : Dash
  alone : Dash
  content : Dash

unfoldable pub dash_of : ℕ → Line → Dash
unfolding is_dash
dash_of indent l =
    if not (Line.indent l == indent) || not (is_dash (Line.text l))
    then ends
    else if text_eq (Line.text l) (codes "-")
    then alone
    else content

-- The content behind a dash as a line of its own.
unfoldable pub virtual_line : ℕ → Line → Line
unfolding leading_spaces
virtual_line indent l =
    let extra = leading_spaces (drop 2 (Line.text l)) in
    record {
      number = Line.number l;
      indent = indent + 2 + extra;
      text = skip_spaces (drop 2 (Line.text l));
      raw = drop (2 + extra) (Line.raw l);
    }

-- What follows a key.
pub data After : Type 0 where
  nested : After
  anchored : After
  literal : After
  inline : After

unfoldable pub after_of : Text → After
after_of [] = nested
after_of (c ∷ s) =
    if c == b'&' then anchored else if c == b'|' || c == b'>' then literal else inline

abbrev pub in_sequence : Items × State → Value × State
in_sequence (items, st) = (array items, st)

abbrev pub push_item : Value → Items × State → Items × State
push_item v (items, st) = (item v items, st)

abbrev pub Parse : Type 0 → Type 0
Parse A = State → Result (A × State)

module _ (ext : External) where
  -- The parts of the four functions, on what the next calls do.
  module _ (mapping : ℕ → Maps → Parse Value) (sequence : ℕ → Parse Items) where
    unfoldable pub node_open : Line → List Line → State → Node → Result (Value × State)
    unfolding parse_inline_value
    node_open l ls st shallow = ok (null, st)
    node_open l ls st dashes = sequence (Line.indent l) st >>= λ r. ok (in_sequence r)
    node_open l ls st keyed = mapping (Line.indent l) (no_fields, no_fields) st
    node_open l ls st single = parse_inline_value ext (Line.number l) (Line.text l) (at_lines ls st)

    unfoldable pub node_at : ℕ → List Line → Parse Value
    unfolding node_open node_of
    node_at min_indent [] st = ok (null, st)
    node_at min_indent (l ∷ ls) st = node_of min_indent l >>= node_open l ls st

  module _ (mapping : Maps → Parse Value) (after : Text → ℕ → Parse Value) where
    unfoldable pub mapping_entry :
        Maps → Line → List Line → State → Option (Text × Text) → Result (Value × State)
    unfolding finish add_entry
    mapping_entry maps l ls st none = ok (finish maps, st)
    mapping_entry maps l ls st (some (key, rest)) =
        after rest (Line.number l) (at_lines ls st) >>= λ r.
        add_entry ext (Line.number l) key r.0 maps >>= λ m. mapping m r.1

    unfoldable pub mapping_at : ℕ → Maps → List Line → Parse Value
    unfolding mapping_entry mapping_line
    mapping_at indent maps [] st = ok (finish maps, st)
    mapping_at indent maps (l ∷ ls) st = mapping_line indent l >>= mapping_entry maps l ls st

  module _ (sequence : Parse Items) (node : Parse Value) where
    unfoldable pub sequence_item : ℕ → Line → List Line → State → Dash → Result (Items × State)
    unfolding virtual_line
    sequence_item indent l ls st ends = ok (no_items, st)
    sequence_item indent l ls st alone =
        node (at_lines ls st) >>= λ r. sequence r.1 >>= λ q. ok (push_item r.0 q)
    sequence_item indent l ls st content = node (at_lines (virtual_line indent l ∷ ls) st) >>= λ r.
        sequence r.1 >>= λ q. ok (push_item r.0 q)

    unfoldable pub sequence_at : ℕ → List Line → Parse Items
    unfolding sequence_item dash_of
    sequence_at indent [] st = ok (no_items, st)
    sequence_at indent (l ∷ ls) st = sequence_item indent l ls st (dash_of indent l)

  module _ (node : Parse Value) (after : Text → Parse Value) (key_indent line_no : ℕ) where
    unfoldable pub after_anchor : Text × Text → Parse Value
    after_anchor ([], remainder) st = failed line_no (codes "anchor name missing after '&'")
    after_anchor (c ∷ name, []) st = node st >>= λ r. ok (define_anchor (c ∷ name) r)
    after_anchor (c ∷ name, d ∷ remainder) st =
        after (d ∷ remainder) st >>= λ r. ok (define_anchor (c ∷ name) r)

    unfoldable pub after_open : Text → After → Parse Value
    unfolding after_anchor parse_block_scalar parse_inline_value split_word
    after_open rest nested st = node st
    after_open rest anchored st = after_anchor (split_word (drop 1 rest)) st
    after_open rest literal st = parse_block_scalar rest key_indent line_no st
    after_open rest inline st = parse_inline_value ext line_no rest st

  unfoldable mutual
    pub parse_node : ℕ → ℕ → Parse Value
    parse_node zero min_indent st = out_of_fuel
    parse_node (suc n) min_indent st =
        node_at (parse_mapping n) (parse_sequence n) min_indent (skip_blank (State.left st)) st

    pub parse_mapping : ℕ → ℕ → Maps → Parse Value
    parse_mapping zero indent maps st = out_of_fuel
    parse_mapping (suc n) indent maps st =
        mapping_at (parse_mapping n indent)
          (λ rest line_no. parse_value_after_key n rest indent line_no) indent maps
          (skip_blank (State.left st)) st

    pub parse_sequence : ℕ → ℕ → Parse Items
    parse_sequence zero indent st = out_of_fuel
    parse_sequence (suc n) indent st =
        sequence_at (parse_sequence n indent) (parse_node n (suc indent)) indent
          (skip_blank (State.left st)) st

    pub parse_value_after_key : ℕ → Text → ℕ → ℕ → Parse Value
    parse_value_after_key zero rest key_indent line_no st = out_of_fuel
    parse_value_after_key (suc n) rest key_indent line_no st =
        after_open (parse_node n (suc key_indent))
          (λ more. parse_value_after_key n more key_indent line_no) key_indent line_no rest
          (after_of rest) st
