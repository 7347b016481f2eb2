-- ===== src/Env/Tests.antt =====
-- Environments at concrete texts.
use dip_rust.Base.{◌≡◌, refl, none, some, List, [], ◌∷◌, map}
use dip_rust.Env.Container.{
  Entry, assigned, word, no_string, entry_text, assigned_pairs, parse_env_json_array_lem,
}
use dip_rust.Env.Lookup.{last_value}
use dip_rust.Env.RoundTrip.{IsKey, double, single, Assignment, pair_of, env_file, parse_env_str_lem}
use dip_rust.Env.{
  Env, lookup, filter_map, collect_onto, parse_env_line, parse_env_str, parse_env_json_array,
}
use dip_rust.Text.{
  Text, codes, strip_prefix, starts_with, ends_with, contains_char, is_whitespace, trim_start_by,
  trim_end_by, split_once, drop_cr, lines_from,
}

nested_quotes : parse_env_line (codes "FOO=\"\"x\"\"") ≡ some (codes "FOO", codes "\"x\"")
unfolding parse_env_line dip_rust.Env.parse_trimmed trim_end_by trim_start_by is_whitespace
    starts_with split_once strip_prefix ends_with
nested_quotes = refl

unbalanced : parse_env_line (codes "FOO=\"abc'") ≡ some (codes "FOO", codes "\"abc'")
unfolding parse_env_line dip_rust.Env.parse_trimmed trim_end_by trim_start_by is_whitespace
    starts_with split_once strip_prefix ends_with
unbalanced = refl

single_quote : parse_env_line (codes "FOO=\"") ≡ some (codes "FOO", codes "\"")
unfolding parse_env_line dip_rust.Env.parse_trimmed trim_end_by trim_start_by is_whitespace
    starts_with split_once strip_prefix
single_quote = refl

comment : parse_env_str (codes "# comment\n\nFOO=bar\n") ≡ (codes "FOO", codes "bar") ∷ []
unfolding parse_env_str lines_from dip_rust.Env.parse_trimmed trim_end_by trim_start_by drop_cr
    is_whitespace starts_with split_once strip_prefix dip_rust.Env.insert
comment = refl

abbrev url : Text
url = codes "mysql://host/db?user=root"

url_IsKey : IsKey b'U' (codes "RL")
unfolding contains_char is_whitespace
url_IsKey = record { no_comment = refl; no_equals = refl; no_space = (refl, (refl, (refl, tt))) }

abbrev assignments : List Assignment
assignments =
    record { first = b'U'; others = codes "RL"; mark = b'"'; value = url }
    ∷ record { first = b'U'; others = codes "RL"; mark = b'\''; value = codes "a \"b\" #c" }
    ∷ []

parse_env_str_lem_example :
    parse_env_str (env_file assignments) ≡ collect_onto [] (map pair_of assignments)
unfolding contains_char is_whitespace
parse_env_str_lem_example =
    parse_env_str_lem assignments ((url_IsKey, double, refl), ((url_IsKey, single, refl), tt))

abbrev entries : List Entry
entries =
    assigned b'U' (codes "RL") (codes "a=1")
    ∷ no_string
    ∷ word b'U' (codes "RL")
    ∷ assigned b'U' (codes "RL") (codes "b")
    ∷ []

parse_env_json_array_lem_example :
    (lookup (codes "URL") (parse_env_json_array (some (map entry_text entries)))
      ≡ last_value (codes "URL") (assigned_pairs entries))
    × (lookup (codes "URL") (parse_env_json_array none) ≡ none)
unfolding is_whitespace
parse_env_json_array_lem_example = parse_env_json_array_lem entries (codes "URL") (
  (url_IsKey, (refl, (refl, (refl, tt))), refl),
  (tt, (url_IsKey, ((url_IsKey, (refl, tt), refl), tt))),
)
