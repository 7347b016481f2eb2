-- ===== src/Compose/Volumes.antt =====
-- Volumes: the struct `VolumeConfig`, `parse_volumes`, `parse_volume` and `parse_short_volume`.
pub mod Short
use mathlib.Core.Option
use dip_rust.Compose.Paths.{is_bind_source, resolve_path_string}
use dip_rust.Base.{
  ◌>>=◌, length-map, ℤ, pos, negsuc, any_of_Has, any_sound, le→ltb-false, is_nil, subst, some_inj,
  ltb→lt, ltb-false→le, leb→le, ℕ, zero, suc, ◌+◌, ◌-◌, ◌*◌, ◌/◌, ◌%◌, ◌^◌, ◌≤◌, ◌<◌, min, ◌≡◌,
  refl, sym, ap, ◌∙◌, ◌≢◌, ◌↔◌, ◌⊎◌, inl, inr, Bool, true, false, not, ◌&&◌, ◌||◌, Option, none,
  some, List, [], ◌∷◌, ◌++◌, map, append_assoc, append-nil, arith, ltb, leb, ◌==◌, if◌then◌else◌,
  ==_iff, Bool-cases, &&-true, Option-cases, unwrap_or, or_else, is_some, length, get_elem?, take,
  drop, filter, any, find, Has, Has-append_left, Has-append_right, All, All-append, All-Has,
  All_of_Has, length-append, take-append-drop, take-length-append, drop-length-append, length-take,
  length-drop, get_elem?-lt,
}
use dip_rust.Text.{
  Text, codes, char_len, byte_len, text_eq, is_empty, strip_prefix, starts_with, ends_with,
  contains_char, contains, is_whitespace, trim_start_by, keep_unless, trim_end_by, trim_start,
  trim_end, trim, trim_char, split_once, cons_to_first, split, before, join, drop_cr, lines_from,
  lines, replace_char, ascii_lower, to_ascii_lowercase, eq_ignore_ascii_case,
}
use dip_rust.Json.{
  Value, Items, Fields, null, bool, int, float, string, array, object, no_items, item, no_fields,
  field, get, insert, insert_new, insert_all, insert_all_new, items_of, values_of, entries_of,
  as_str, as_object, as_array, as_bool, text_lt,
}

pub record VolumeConfig : Type 0 where
  pub kind : Option Text
  pub source : Option Text
  pub target : Option Text
  pub read_only : Option Bool

-- A source and a target, with or without a mode.
unfoldable pub mount : Text → Text → Text → Option Bool → VolumeConfig
unfolding is_bind_source resolve_path_string
mount base_dir source target read_only = record {
  kind = some (if is_bind_source source then codes "bind" else codes "volume");
  source = some (if is_bind_source source then resolve_path_string base_dir source else source);
  target = some target;
  read_only = read_only;
}

unfoldable pub short_parts : Text → List Text → Option VolumeConfig
unfolding mount contains
short_parts base_dir (target ∷ []) =
    some (record {
      kind = some (codes "volume");
      source = none;
      target = some target;
      read_only = none;
    })
short_parts base_dir (source ∷ target ∷ []) = some (mount base_dir source target none)
short_parts base_dir (source ∷ target ∷ mode ∷ []) =
    some (mount base_dir source target (some (contains (codes "ro") mode)))
short_parts base_dir _ = none

unfoldable pub parse_short_volume : Text → Text → Option VolumeConfig
unfolding short_parts split
parse_short_volume base_dir raw = short_parts base_dir (split b':' raw)

-- `map.get(a).or_else(|| map.get(b)).and_then(scalar_to_string)`.
unfoldable pub text_at : Text → Text → Fields → Option Text
unfolding get
text_at a b known = or_else (get a known) (get b known) >>= as_str

unfoldable pub long_volume : Text → Fields → VolumeConfig
unfolding get text_at resolve_path_string text_eq
long_volume base_dir known =
    let kind = unwrap_or (get (codes "type") known >>= as_str) (codes "volume") in
    record {
      kind = some kind;
      source =
          Option.map
            (λ source.
              if text_eq kind (codes "bind") then resolve_path_string base_dir source else source)
            (text_at (codes "source") (codes "src") known);
      target =
          or_else (get (codes "target") known)
            (or_else (get (codes "dst") known) (get (codes "destination") known))
          >>= as_str;
      read_only =
          or_else (get (codes "read_only") known) (get (codes "readonly") known) >>= as_bool;
    }

unfoldable pub parse_volume : Text → Value → Option VolumeConfig
unfolding parse_short_volume long_volume
parse_volume base_dir (string raw) = parse_short_volume base_dir raw
parse_volume base_dir (object known) = some (long_volume base_dir known)
parse_volume base_dir value = none

abbrev pub cons_some : {A : Type 0} → Option A → List A → List A
cons_some none xs = xs
cons_some (some x) xs = x ∷ xs

unfoldable pub volumes_from : Text → List Value → List VolumeConfig
unfolding parse_volume
volumes_from base_dir [] = []
volumes_from base_dir (v ∷ values) =
    cons_some (parse_volume base_dir v) (volumes_from base_dir values)

unfoldable pub parse_volumes : Text → Value → List VolumeConfig
unfolding volumes_from values_of
parse_volumes base_dir (array items) = volumes_from base_dir (values_of items)
parse_volumes base_dir value = []
