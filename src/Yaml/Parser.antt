-- ===== src/Yaml/Parser.antt =====
-- Whole documents: `parse_document` and `from_str`.
pub mod Ending
use dip_rust.Base.{
  length-map, ℤ, pos, negsuc, any_of_Has, any_sound, le→ltb-false, is_nil, subst, some_inj, ltb→lt,
  ltb-false→le, leb→le, ℕ, zero, suc, ◌+◌, ◌-◌, ◌*◌, ◌/◌, ◌%◌, ◌^◌, ◌≤◌, ◌<◌, min, ◌≡◌, refl, sym,
  ap, ◌∙◌, ◌≢◌, ◌↔◌, ◌⊎◌, inl, inr, Bool, true, false, not, ◌&&◌, ◌||◌, Option, none, some, List,
  [], ◌∷◌, ◌++◌, map, append_assoc, append-nil, arith, ltb, leb, ◌==◌, if◌then◌else◌, ==_iff,
  Bool-cases, &&-true, Option-cases, unwrap_or, or_else, is_some, length, get_elem?, take, drop,
  filter, any, find, Has, Has-append_left, Has-append_right, All, All-append, All-Has, All_of_Has,
  length-append, take-append-drop, take-length-append, drop-length-append, length-take, length-drop,
  get_elem?-lt,
}
use dip_rust.Text.{
  Text, codes, char_len, byte_len, text_eq, is_empty, strip_prefix, starts_with, ends_with,
  contains_char, contains, is_whitespace, trim_start_by, keep_unless, trim_end_by, trim_start,
  trim_end, trim, trim_char, split_once, cons_to_first, split, before, join, drop_cr, lines_from,
  lines, replace_char, ascii_lower, to_ascii_lowercase, eq_ignore_ascii_case,
}
use dip_rust.Json.{
  Value, Items, Fields, null, bool, int, float, string, array, object, no_items, item, no_fields,
  field, get, insert, insert_new, insert_all, insert_all_new, items_of, values_of, entries_of,
  as_str, as_object, as_array, as_bool, text_lt,
}
use dip_rust.Yaml.Result.{
  Result, ok, failed, out_of_fuel, ◌>>=◌, Ends, Ends->>=, Ends-if, Ends-ne_out_of_fuel,
}
use dip_rust.Yaml.Scan.{
  Mode, outside, in_single, in_double, escaped, next_mode, is_outside, strip_from, strip_comment,
  head_is, cons_token, take_quoted, take_single, take_double, unescape, is_quote, find_colon,
  key_end, plain_key, split_key, split_word, depth_from, flow_depth,
}
use dip_rust.Yaml.Scalar.{
  is_digit, all_digits, in_range, parse_digits, parse_i64, one_of, plain_scalar, parse_scalar_token,
}
use dip_rust.Yaml.Flow.{
  External, Anchors, anchor, alias_value, skip_spaces, take_plain_token, ends_token, ends_key,
  Opening, sequence, mapping, quoted, alias, plain, opening, Next, more, close, other, next,
  flow_key, flow_alias, value_open, value_at, seq_go, seq_next, seq_item, seq_at, map_go, map_next,
  map_value, map_colon, map_key, map_at, parse_value, parse_seq, parse_map, plain_token, flow_value,
  no_colon, string_token, in_array, in_object, with_item,
}
use dip_rust.Yaml.Flow.Tokens.{
  Left, length-trim_start_by, Left-map, Left-weaken, Left-take_quoted, Left-take_plain_token,
  cons_same, Left-take_single, Left-take_double,
}
use dip_rust.Yaml.Flow.Ending.{Left-flow_value}
use dip_rust.Yaml.Lines.{
  Line, State, without_cr, leading_spaces, read_line, read_lines, new, skip_blank, at_lines,
  define_anchor,
}
use dip_rust.Yaml.Literal.{
  Chomp, clip, strip, keep, chomping, spaces, with_line, collect_lines, before_content,
  split_blanks, fold_lines, newlines, chomp_body, scalar_body, parse_block_scalar,
}
use dip_rust.Yaml.Inline.{
  flow_lines, Start, star, ampersand, bracket, tag, token, start_of, inline_alias, inline_scalar,
  flow_end, inline_flow, inline_anchor, inline_open, inline_at, inline_value, parse_inline_value,
}
use dip_rust.Yaml.Block.{
  is_dash, is_marker, Node, shallow, dashes, keyed, single, node_of, mapping_line, merge_sources,
  merge_source, merge_all, Maps, add_entry, finish, Dash, ends, alone, content, dash_of,
  virtual_line, After, nested, anchored, literal, inline, after_of, in_sequence, push_item, Parse,
  node_open, node_at, mapping_entry, mapping_at, sequence_item, sequence_at, after_anchor,
  after_open, parse_node, parse_mapping, parse_sequence, parse_value_after_key,
}
use dip_rust.Yaml.Block.Sizes.{
  lines_size, size, Fits, lines_size-skip_blank, Fits-weaken, Anything, Ends-Anything, Fits-map,
  length-split_word, Shorter, Shorter-split_key,
}
use dip_rust.Yaml.Block.Leaves.{Fits-parse_inline_value, Fits-parse_block_scalar}
use dip_rust.Yaml.Block.Ending.{Small-parse_node}

-- The document's first line: the marker `---` is passed over, a directive is refused.
unfoldable pub open_document : List Line → List Line → Result (List Line)
open_document left [] = ok left
open_document left (l ∷ ls) =
    if text_eq (Line.text l) (codes "---")
    then ok ls
    else if head_is (λ c. c == b'%') (Line.text l)
    then failed (Line.number l) (codes "YAML directives are not supported")
    else ok left

-- The marker `...` ends a document.
unfoldable pub close_document : List Line → List Line
close_document [] = []
close_document (l ∷ ls) = if text_eq (Line.text l) (codes "...") then ls else l ∷ ls

unfoldable pub nothing_left : Value → List Line → Result Value
nothing_left v [] = ok v
nothing_left v (l ∷ ls) =
    if text_eq (Line.text l) (codes "---")
    then failed (Line.number l) (codes "multi-document YAML is not supported")
    else failed (Line.number l) (codes "unexpected content '" ++ (Line.text l ++ codes "'"))

-- `2 * lines_size + 2` units of fuel are enough for a node.
unfoldable pub parse_document : External → State → Result Value
unfolding open_document skip_blank parse_node close_document nothing_left
parse_document ext st = open_document (State.left st) (skip_blank (State.left st)) >>= λ ls.
    parse_node ext (2 * lines_size ls + 2) 0 (at_lines ls st) >>= λ r.
    nothing_left r.0 (skip_blank (close_document (skip_blank (State.left r.1))))

unfoldable pub from_str : External → Text → Result Value
unfolding new parse_document
from_str ext input = new input >>= parse_document ext
