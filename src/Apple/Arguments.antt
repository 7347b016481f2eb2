-- ===== src/Apple/Arguments.antt =====
-- The arguments of the commands of Apple's container tool: `build_service`, `run_service`, their
-- helpers and the health check. The numbers that are no integers are shown as `float_text` says.
pub mod Exec
use dip_rust.Base.{
  length-map, ℤ, pos, negsuc, any_of_Has, any_sound, le→ltb-false, is_nil, subst, some_inj, ltb→lt,
  ltb-false→le, leb→le, ℕ, zero, suc, ◌+◌, ◌-◌, ◌*◌, ◌/◌, ◌%◌, ◌^◌, ◌≤◌, ◌<◌, min, ◌≡◌, refl, sym,
  ap, ◌∙◌, ◌≢◌, ◌↔◌, ◌⊎◌, inl, inr, Bool, true, false, not, ◌&&◌, ◌||◌, Option, none, some, List,
  [], ◌∷◌, ◌++◌, map, append_assoc, append-nil, arith, ltb, leb, ◌==◌, if◌then◌else◌, ==_iff,
  Bool-cases, &&-true, Option-cases, unwrap_or, or_else, is_some, length, get_elem?, take, drop,
  filter, any, find, Has, Has-append_left, Has-append_right, All, All-append, All-Has, All_of_Has,
  length-append, take-append-drop, take-length-append, drop-length-append, length-take, length-drop,
  get_elem?-lt,
}
use dip_rust.Text.{
  Text, codes, char_len, byte_len, text_eq, is_empty, strip_prefix, starts_with, ends_with,
  contains_char, contains, is_whitespace, trim_start_by, keep_unless, trim_end_by, trim_start,
  trim_end, trim, trim_char, split_once, cons_to_first, split, before, join, drop_cr, lines_from,
  lines, replace_char, ascii_lower, to_ascii_lowercase, eq_ignore_ascii_case,
}
use dip_rust.Json.{
  Value, Items, Fields, null, bool, int, float, string, array, object, no_items, item, no_fields,
  field, get, insert, insert_new, insert_all, insert_all_new, items_of, values_of, entries_of,
  as_str, as_object, as_array, as_bool, text_lt,
}
use mathlib.Core.Option
use dip_rust.Text.Decimal.{signed_decimal}
use dip_rust.Compose.Services.{ServiceConfig, BuildConfig, label_entries, dockerfile_path}
use dip_rust.Compose.Volumes.{VolumeConfig, cons_some}

-- `sanitize_name`: a run of other characters and dashes becomes one dash, and none at the ends.
abbrev pub is_alphanumeric : ℕ → Bool
is_alphanumeric c =
    (leb b'a' c && leb c b'z') || (leb b'A' c && leb c b'Z') || (leb b'0' c && leb c b'9')

abbrev pub name_char : ℕ → ℕ
name_char c =
    if is_alphanumeric c || c == b'_' || c == b'.' || c == b'-' then ascii_lower c else b'-'

unfoldable pub squeeze : (last_dash : Bool) → Text → Text
squeeze last_dash [] = []
squeeze last_dash (c ∷ s) =
    let rest = squeeze (name_char c == b'-') s in
    if name_char c == b'-' && last_dash then rest else name_char c ∷ rest

unfoldable pub sanitize_name : Text → Text
unfolding squeeze trim_start_by trim_end_by
sanitize_name value = trim_char b'-' (squeeze false value)

module _ (project_name : Text) where
  unfoldable pub container_name : Text → Text
  unfolding sanitize_name
  container_name service_name =
      codes "dip-" ++ (sanitize_name project_name ++ (b'-' ∷ sanitize_name service_name))

  unfoldable pub network_name : Text
  unfolding sanitize_name
  network_name = codes "dip-" ++ sanitize_name project_name

  unfoldable pub image_name : Text → ServiceConfig → Text
  unfolding container_name
  image_name service_name service =
      unwrap_or (ServiceConfig.image service) (container_name service_name ++ codes ":latest")

-- `container_env=value` and the like.
abbrev pub assignment : Text → Text → Text
assignment key value = key ++ (b'=' ∷ value)

abbrev pub option_with : Text → Option Text → List Text
option_with flag none = []
option_with flag (some value) = flag ∷ value ∷ []

abbrev pub options_with : Text → List Text → List Text
options_with flag [] = []
options_with flag (value ∷ values) = flag ∷ value ∷ options_with flag values

abbrev pub assignments : List (Text × Text) → List Text
assignments [] = []
assignments ((key, value) ∷ entries) = assignment key value ∷ assignments entries

unfoldable pub volume_spec : VolumeConfig → Option Text
volume_spec volume =
    Option.map
      (λ target. elim (VolumeConfig.source volume) [
        | some source ↦
            source
            ++ (b':'
                ∷ (target
                    ++ (if unwrap_or (VolumeConfig.read_only volume) false
                        then codes ":ro"
                        else [])))
        | none ↦ target
      ])
      (VolumeConfig.target volume)

unfoldable pub volume_specs : List VolumeConfig → List Text
unfolding volume_spec
volume_specs [] = []
volume_specs (volume ∷ volumes) = cons_some (volume_spec volume) (volume_specs volumes)

module _ (float_text : Text → Text) where
  unfoldable pub value_to_string : Value → Option Text
  unfolding signed_decimal
  value_to_string (string s) = some s
  value_to_string (int i) = some (signed_decimal i)
  value_to_string (float t) = some (float_text t)
  value_to_string (bool b) = some (if b then codes "true" else codes "false")
  value_to_string _ = none

  unfoldable pub texts_in : List Value → List Text
  unfolding value_to_string
  texts_in [] = []
  texts_in (v ∷ values) = cons_some (value_to_string v) (texts_in values)

  unfoldable pub string_list : Value → List Text
  unfolding texts_in values_of
  string_list (string s) = s ∷ []
  string_list (array items) = texts_in (values_of items)
  string_list _ = []

  abbrev pub with_text : Text → Option Text → Option (Text × Text)
  with_text key none = none
  with_text key (some value) = some (key, value)

  unfoldable pub entries_in : Fields → List (Text × Text)
  unfolding value_to_string
  entries_in no_fields = []
  entries_in (field key v rest) = cons_some (with_text key (value_to_string v)) (entries_in rest)

  unfoldable pub environment_entries : Value → List (Text × Text)
  unfolding entries_in
  environment_entries (object known) = entries_in known
  environment_entries _ = []

  unfoldable pub command_args : Value → List Text
  unfolding texts_in values_of
  command_args (string command) =
      if is_empty (trim command) then [] else codes "/bin/sh" ∷ codes "-lc" ∷ command ∷ []
  command_args (array items) = texts_in (values_of items)
  command_args _ = []

  abbrev pub joined_parts : List Text → Option Text
  joined_parts [] = none
  joined_parts (part ∷ parts) = some (join (codes " ") (part ∷ parts))

  unfoldable pub entrypoint_arg : Value → Option Text
  unfolding texts_in values_of join
  entrypoint_arg (string s) = if is_empty (trim s) then none else some s
  entrypoint_arg (array items) = joined_parts (texts_in (values_of items))
  entrypoint_arg _ = none

  -- `healthcheck_command_args`.
  unfoldable pub health_parts : List Text → Option (List Text)
  unfolding text_eq join
  health_parts [] = none
  health_parts (first ∷ parts) =
      if text_eq first (codes "NONE")
      then none
      else if text_eq first (codes "CMD")
      then some parts
      else if text_eq first (codes "CMD-SHELL")
      then some (codes "sh" ∷ codes "-c" ∷ join (codes " ") parts ∷ [])
      else some (first ∷ parts)

  unfoldable pub health_test : Option Value → Option (List Text)
  unfolding health_parts texts_in values_of
  health_test (some (string command)) =
      if is_empty (trim command) then none else some (codes "sh" ∷ codes "-c" ∷ trim command ∷ [])
  health_test (some (array items)) = health_parts (texts_in (values_of items))
  health_test _ = none

  abbrev pub field_of : Text → Value → Option Value
  field_of key (object known) = get key known
  field_of key _ = none

  unfoldable pub healthcheck_command_args : ServiceConfig → Option (List Text)
  unfolding health_test get
  healthcheck_command_args service =
      health_test (field_of (codes "test") (ServiceConfig.healthcheck service))

  module _ (project_name : Text) where
    -- The arguments of `build_service`; `none` is the error that the build context is missing.
    unfoldable pub build_args : Text → ServiceConfig → BuildConfig → Option (List Text)
    unfolding image_name dockerfile_path entries_in
    build_args service_name service build =
        Option.map
          (λ context.
            codes "build"
            ∷ codes "-t"
            ∷ image_name project_name service_name service
            ∷ (option_with (codes "-f") (dockerfile_path build)
                ++ (option_with (codes "--target") (BuildConfig.target build)
                    ++ (options_with (codes "--build-arg")
                          (assignments (entries_in (BuildConfig.args build)))
                        ++ context ∷ []))))
          (BuildConfig.context build)

    -- The arguments of `run_service`.
    unfoldable pub run_args : Text → ServiceConfig → Text → List Text
    unfolding image_name container_name label_entries string_list environment_entries volume_specs
        entrypoint_arg command_args
    run_args service_name service network =
        codes "run"
        ∷ codes "--detach"
        ∷ codes "--name"
        ∷ container_name project_name service_name
        ∷ codes "--network"
        ∷ network
        ∷ codes "--label"
        ∷ assignment (codes "com.docker.compose.project") project_name
        ∷ codes "--label"
        ∷ assignment (codes "com.docker.compose.service") service_name
        ∷ codes "--label"
        ∷ assignment (codes "com.dip.project") project_name
        ∷ codes "--label"
        ∷ assignment (codes "com.dip.service") service_name
        ∷ (options_with (codes "--label") (assignments (label_entries service))
            ++ (options_with (codes "--env-file") (string_list (ServiceConfig.env_file service))
                ++ (options_with (codes "--env")
                      (assignments (environment_entries (ServiceConfig.environment service)))
                    ++ (options_with (codes "--volume")
                          (volume_specs (ServiceConfig.volumes service))
                        ++ (options_with (codes "--publish")
                              (string_list (ServiceConfig.ports service))
                            ++ (option_with (codes "--workdir") (ServiceConfig.working_dir service)
                                ++ (option_with (codes "--entrypoint")
                                      (entrypoint_arg (ServiceConfig.entrypoint service))
                                    ++ image_name project_name service_name service
                                      ∷ command_args (ServiceConfig.command service))))))))

-- `replace_run_network`: the value behind the first `--network`.
unfoldable pub replace_run_network : Text → List Text → List Text
unfolding text_eq
replace_run_network network [] = []
replace_run_network network (arg ∷ []) = arg ∷ []
replace_run_network network (arg ∷ value ∷ args) =
    let rest = replace_run_network network (value ∷ args) in
    if text_eq arg (codes "--network") then arg ∷ network ∷ args else arg ∷ rest
