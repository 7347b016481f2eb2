-- ===== src/Compose/Services.antt =====
-- Services: the structs `ServiceConfig` and `BuildConfig`, and their parsers.
pub mod Lists
pub mod Precedence
use mathlib.Core.Option
use dip_rust.Compose.Paths.{is_absolute, join_path, resolve_path_string}
use dip_rust.Compose.Volumes.{VolumeConfig, parse_volumes, cons_some}
use dip_rust.Base.{
  ◌>>=◌, length-map, ℤ, pos, negsuc, any_of_Has, any_sound, le→ltb-false, is_nil, subst, some_inj,
  ltb→lt, ltb-false→le, leb→le, ℕ, zero, suc, ◌+◌, ◌-◌, ◌*◌, ◌/◌, ◌%◌, ◌^◌, ◌≤◌, ◌<◌, min, ◌≡◌,
  refl, sym, ap, ◌∙◌, ◌≢◌, ◌↔◌, ◌⊎◌, inl, inr, Bool, true, false, not, ◌&&◌, ◌||◌, Option, none,
  some, List, [], ◌∷◌, ◌++◌, map, append_assoc, append-nil, arith, ltb, leb, ◌==◌, if◌then◌else◌,
  ==_iff, Bool-cases, &&-true, Option-cases, unwrap_or, or_else, is_some, length, get_elem?, take,
  drop, filter, any, find, Has, Has-append_left, Has-append_right, All, All-append, All-Has,
  All_of_Has, length-append, take-append-drop, take-length-append, drop-length-append, length-take,
  length-drop, get_elem?-lt,
}
use dip_rust.Text.{
  Text, codes, char_len, byte_len, text_eq, is_empty, strip_prefix, starts_with, ends_with,
  contains_char, contains, is_whitespace, trim_start_by, keep_unless, trim_end_by, trim_start,
  trim_end, trim, trim_char, split_once, cons_to_first, split, before, join, drop_cr, lines_from,
  lines, replace_char, ascii_lower, to_ascii_lowercase, eq_ignore_ascii_case,
}
use dip_rust.Json.{
  Value, Items, Fields, null, bool, int, float, string, array, object, no_items, item, no_fields,
  field, get, insert, insert_new, insert_all, insert_all_new, items_of, values_of, entries_of,
  as_str, as_object, as_array, as_bool, text_lt,
}

pub record BuildConfig : Type 0 where
  pub context : Option Text
  pub dockerfile : Option Text
  pub target : Option Text
  pub args : Fields

pub record ServiceConfig : Type 0 where
  pub build : Option BuildConfig
  pub image : Option Text
  pub labels : Value
  pub volumes : List VolumeConfig
  pub ports : Value
  pub environment : Value
  pub env_file : Value
  pub command : Value
  pub entrypoint : Value
  pub working_dir : Option Text
  pub depends_on : List Text
  pub healthcheck : Value

-- `BuildConfig::dockerfile_path`, with `dockerfile_name`.
unfoldable pub dockerfile_name : BuildConfig → Text
dockerfile_name build = unwrap_or (BuildConfig.dockerfile build) (codes "Dockerfile")

unfoldable pub dockerfile_path : BuildConfig → Option Text
unfolding dockerfile_name join_path
dockerfile_path build =
    Option.map
      (λ context.
        if is_absolute (dockerfile_name build)
        then dockerfile_name build
        else join_path context (dockerfile_name build))
      (BuildConfig.context build)

-- The entries of a map whose values are texts, and of a list of `key=value`.
unfoldable pub text_entries : Fields → List (Text × Text)
text_entries no_fields = []
text_entries (field key (string s) rest) = (key, s) ∷ text_entries rest
text_entries (field key _ rest) = text_entries rest

abbrev pub trim_pair : Text × Text → Text × Text
trim_pair (key, value) = (trim key, trim value)

unfoldable pub list_entries : Items → List (Text × Text)
unfolding split_once
list_entries no_items = []
list_entries (item (string raw) items) =
    cons_some (Option.map trim_pair (split_once b'=' raw)) (list_entries items)
list_entries (item _ items) = list_entries items

-- `ServiceConfig::label_entries`: the raw entries of a list are trimmed before they are split.
unfoldable pub trim_values : List (Text × Text) → List (Text × Text)
trim_values [] = []
trim_values ((key, value) ∷ rest) = (key, trim value) ∷ trim_values rest

unfoldable pub trim_items : Items → Items
trim_items no_items = no_items
trim_items (item (string raw) items) = item (string (trim raw)) (trim_items items)
trim_items (item v items) = item v (trim_items items)

unfoldable pub entries_from : Value → List (Text × Text)
unfolding text_entries list_entries trim_values trim_items
entries_from (object known) = trim_values (text_entries known)
entries_from (array items) = list_entries (trim_items items)
entries_from _ = []

unfoldable pub label_entries : ServiceConfig → List (Text × Text)
unfolding entries_from
label_entries service = entries_from (ServiceConfig.labels service)

-- Insertion of entries, each a text, in their order.
unfoldable pub insert_texts : List (Text × Text) → Fields → Fields
unfolding insert
insert_texts [] known = known
insert_texts ((key, value) ∷ rest) known = insert_texts rest (insert key (string value) known)

-- `parse_labels` and `parse_environment`, which are the same.
unfoldable pub parse_labels : Value → Value
unfolding insert_texts text_entries list_entries
parse_labels (object known) = object (insert_texts (text_entries known) no_fields)
parse_labels (array items) = object (insert_texts (list_entries items) no_fields)
parse_labels _ = object no_fields

abbrev pub parse_environment : Value → Value
parse_environment = parse_labels

-- The texts of a list.
unfoldable pub texts_of : Items → List Text
texts_of no_items = []
texts_of (item (string s) items) = s ∷ texts_of items
texts_of (item _ items) = texts_of items

unfoldable pub keys_of : Fields → List Text
keys_of no_fields = []
keys_of (field key v rest) = key ∷ keys_of rest

abbrev pub strings : List Text → Items
strings [] = no_items
strings (s ∷ texts) = item (string s) (strings texts)

unfoldable pub parse_string_list_value : Value → Value
unfolding texts_of
parse_string_list_value (string raw) = array (strings (raw ∷ []))
parse_string_list_value (array items) = array (strings (texts_of items))
parse_string_list_value _ = array no_items

abbrev pub resolve_items : Text → Value → Value
resolve_items base_dir (array items) =
    array (strings (map (resolve_path_string base_dir) (texts_of items)))
resolve_items base_dir _ = array no_items

unfoldable pub parse_path_list_value : Text → Value → Value
unfolding parse_string_list_value texts_of resolve_path_string
parse_path_list_value base_dir value = resolve_items base_dir (parse_string_list_value value)

unfoldable pub parse_depends_on : Value → List Text
unfolding texts_of keys_of
parse_depends_on (array items) = texts_of items
parse_depends_on (object known) = keys_of known
parse_depends_on _ = []

abbrev pub args_of : Option Value → Fields
args_of (some (object args)) = args
args_of _ = no_fields

unfoldable pub parse_build : Text → Value → Option BuildConfig
unfolding resolve_path_string get
parse_build base_dir (string context) = some (record {
  context = some (resolve_path_string base_dir context);
  dockerfile = none;
  target = none;
  args = no_fields;
})
parse_build base_dir (object known) = some (record {
  context = some (
      unwrap_or (Option.map (resolve_path_string base_dir) (get (codes "context") known >>= as_str))
        base_dir);
  dockerfile = get (codes "dockerfile") known >>= as_str;
  target = get (codes "target") known >>= as_str;
  args = args_of (get (codes "args") known);
})
parse_build base_dir _ = none

-- The merge key that the YAML reader has left, in which the first entry wins.
unfoldable mutual
  pub merge_value_into : Value → Fields → Fields
  merge_value_into (object known) target = insert_all_new known target
  merge_value_into (array items) target = merge_items_into items target
  merge_value_into null target = target
  merge_value_into (bool b) target = target
  merge_value_into (int i) target = target
  merge_value_into (float t) target = target
  merge_value_into (string s) target = target

  pub merge_items_into : Items → Fields → Fields
  merge_items_into no_items target = target
  merge_items_into (item v items) target = merge_items_into items (merge_value_into v target)

unfoldable pub insert_own : Fields → Fields → Fields
unfolding insert text_eq
insert_own no_fields merged = merged
insert_own (field key v rest) merged =
    insert_own rest (if text_eq key (codes "<<") then merged else insert key v merged)

abbrev pub merge_base : Option Value → Fields
merge_base none = no_fields
merge_base (some base) = merge_value_into base no_fields

unfoldable pub merge_service_map : Value → Option Fields
unfolding get insert_own merge_value_into
merge_service_map (object known) = some (insert_own known (merge_base (get (codes "<<") known)))
merge_service_map _ = none

unfoldable pub service_of : Text → Fields → ServiceConfig
unfolding get parse_build parse_labels parse_volumes parse_string_list_value parse_path_list_value
    parse_depends_on
service_of base_dir service = record {
  build = get (codes "build") service >>= parse_build base_dir;
  image = get (codes "image") service >>= as_str;
  labels = unwrap_or (Option.map parse_labels (get (codes "labels") service)) (object no_fields);
  volumes = unwrap_or (Option.map (parse_volumes base_dir) (get (codes "volumes") service)) [];
  ports =
      unwrap_or (Option.map parse_string_list_value (get (codes "ports") service)) (array no_items);
  environment =
      unwrap_or (Option.map parse_environment (get (codes "environment") service))
        (object no_fields);
  env_file =
      unwrap_or (Option.map (parse_path_list_value base_dir) (get (codes "env_file") service))
        (array no_items);
  command = unwrap_or (get (codes "command") service) null;
  entrypoint = unwrap_or (get (codes "entrypoint") service) null;
  working_dir =
      or_else (get (codes "working_dir") service) (get (codes "workdir") service) >>= as_str;
  depends_on = unwrap_or (Option.map parse_depends_on (get (codes "depends_on") service)) [];
  healthcheck = unwrap_or (get (codes "healthcheck") service) null;
}

unfoldable pub parse_service : Text → Value → Option ServiceConfig
unfolding merge_service_map service_of
parse_service base_dir value = Option.map (service_of base_dir) (merge_service_map value)

abbrev pub named : Text → Option ServiceConfig → Option (Text × ServiceConfig)
named name none = none
named name (some service) = some (name, service)

unfoldable pub parse_services : Text → Fields → List (Text × ServiceConfig)
unfolding parse_service
parse_services base_dir no_fields = []
parse_services base_dir (field name v rest) =
    cons_some (named name (parse_service base_dir v)) (parse_services base_dir rest)

-- `none` is the error that the file has no services map.
abbrev pub services_in : Text → Option Fields → Option (List (Text × ServiceConfig))
services_in base_dir none = none
services_in base_dir (some services) = some (parse_services base_dir services)

unfoldable pub parse_compose_value : Text → Value → Option (List (Text × ServiceConfig))
unfolding get parse_services
parse_compose_value base_dir (object known) =
    services_in base_dir (get (codes "services") known >>= as_object)
parse_compose_value base_dir _ = none
