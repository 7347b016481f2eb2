-- ===== src/Yaml/Tests.antt =====
-- Runs of the YAML reader on small documents.
use dip_rust.Base.{pos, ◌≡◌, refl, false, List, [], ◌∷◌}
use dip_rust.Text.{
  Text, codes, char_len, byte_len, text_eq, is_empty, strip_prefix, starts_with, ends_with,
  contains_char, contains, is_whitespace, trim_start_by, keep_unless, trim_end_by, trim_start,
  trim_end, trim, trim_char, split_once, cons_to_first, split, before, join, drop_cr, lines_from,
  lines, replace_char, ascii_lower, to_ascii_lowercase, eq_ignore_ascii_case,
}
use dip_rust.Json.{
  Value, Fields, int, string, array, object, no_fields, field, insert, items_of, text_lt,
}
use dip_rust.Yaml.Result.{ok, failed}
use dip_rust.Yaml.Scan.{take_quoted, find_colon}
use dip_rust.Yaml.Flow.{
  External, Anchors, anchor, alias_value, skip_spaces, take_plain_token, ends_token, ends_key,
  Opening, sequence, mapping, quoted, alias, plain, opening, Next, more, close, other, next,
  flow_key, flow_alias, value_open, value_at, seq_go, seq_next, seq_item, seq_at, map_go, map_next,
  map_value, map_colon, map_key, map_at, parse_value, parse_seq, parse_map, plain_token, flow_value,
  no_colon, string_token, in_array, in_object, with_item,
}
use dip_rust.Yaml.Block.{after_of, node_at, mapping_at, sequence_at, after_open}
use dip_rust.Yaml.Parser.{from_str}

abbrev shown : External
shown = record { is_f64 = λ s. false; display = λ v. []; debug = λ c. [] }

abbrev object_of : List (Text × Value) → Value
object_of entries = object (insert_each entries)
  where
    insert_each : List (Text × Value) → Fields
    insert_each [] = no_fields
    insert_each ((k, v) ∷ es) = field k v (insert_each es)

nested_mappings :
    from_str shown (codes "app:\n  ports:\n    - \"8080:80\"\n    - 3000:3000\nx: 1\n")
    ≡ ok (
        object_of (
          (
            codes "app",
            object_of (
                (
                  codes "ports",
                  array (items_of (string (codes "8080:80") ∷ string (codes "3000:3000") ∷ [])),
                )
                ∷ []),
          )
          ∷ (codes "x", int (pos 1))
          ∷ []))
unfolding from_str insert lines_from trim_start_by drop_cr trim_end_by is_whitespace text_eq node_at
    find_colon mapping_at after_open after_of sequence_at take_quoted text_lt items_of
    dip_rust.Text.Decimal.decimal_value
nested_mappings = refl

merge_key :
    from_str shown (codes "base: &b\n  a: 1\n  b: 2\nsvc:\n  <<: *b\n  b: 3\n")
    ≡ ok (
        object_of (
          (codes "base", object_of ((codes "a", int (pos 1)) ∷ (codes "b", int (pos 2)) ∷ []))
          ∷ (codes "svc", object_of ((codes "a", int (pos 1)) ∷ (codes "b", int (pos 3)) ∷ []))
          ∷ []))
unfolding from_str lines_from trim_start_by drop_cr trim_end_by is_whitespace text_eq node_at
    find_colon mapping_at after_open after_of text_lt dip_rust.Text.Decimal.decimal_value
merge_key = refl

flow_and_literal :
    from_str shown (codes "a: [1, {b: 'it''s'},\n  x] # c\nt: |\n  l1\n   l2\n\n")
    ≡ ok (
        object_of (
          (
            codes "a",
            array (
                items_of (
                  int (pos 1)
                  ∷ object_of ((codes "b", string (codes "it's")) ∷ [])
                  ∷ string (codes "x")
                  ∷ [])),
          )
          ∷ (codes "t", string (codes "l1\n l2\n"))
          ∷ []))
unfolding from_str lines_from trim_start_by drop_cr trim_end_by is_whitespace text_eq node_at
    find_colon mapping_at after_open after_of dip_rust.Yaml.Flow.value_at dip_rust.Yaml.Flow.seq_at
    dip_rust.Yaml.Flow.plain_token dip_rust.Yaml.Flow.map_at text_lt items_of join insert
    dip_rust.Text.Decimal.decimal_value
flow_and_literal = refl

sequence_at_key_indentation :
    from_str shown (codes "ports:\n- a\n") ≡ failed 2 (codes "expected 'key:', got '- a'")
unfolding from_str lines_from trim_start_by drop_cr trim_end_by is_whitespace text_eq node_at
    find_colon mapping_at after_open after_of
sequence_at_key_indentation = refl
