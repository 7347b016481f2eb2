-- ===== src/Compose/Tests.antt =====
-- Runs on small Compose files and Dockerfiles, and witnesses.
use dip_rust.Base.{pos, ◌≡◌, refl, true, false, none, some, List, [], ◌∷◌, ◌++◌, or_else}
use dip_rust.Text.{Text, codes, text_eq, contains_char, contains, drop_cr, lines_from}
use dip_rust.Json.{Fields, int, string, object, no_fields, field, get, text_lt}
use dip_rust.Compose.Paths.{normalize_path, resolve_path_string}
use dip_rust.Compose.Volumes.{parse_short_volume}
use dip_rust.Compose.Stages.{dockerfile_stages}
use dip_rust.Compose.Variables.{interpolate_string, split_default, resolve_env_expr}
use dip_rust.Compose.Variables.Substitution.{interpolate_string_lem, resolve_env_expr_forms}
use dip_rust.Compose.Services.{parse_labels}
use dip_rust.Compose.Services.Precedence.{get-merge_service_map, found_in, base_entry}
use dip_rust.Compose.Services.{merge_service_map}
use dip_rust.Compose.Loading.{Loaded, load_project_compose, load_project_compose-Loaded}
use dip_rust.Yaml.Flow.{External}
use dip_rust.Yaml.Result.{Ends}
use dip_rust.Compose.Paths.Dots.{normalize_path_lem}

relative_path : resolve_path_string (codes "/srv/app") (codes "../db/./x//y") ≡ codes "/srv/db/x/y"
unfolding resolve_path_string
relative_path = refl

-- A bind mount of the directory itself is taken for a named volume.
current_directory :
    parse_short_volume (codes "/srv/app") (codes ".:/app")
    ≡ some (record {
      kind = some (codes "volume");
      source = some (codes ".");
      target = some (codes "/app");
      read_only = none;
    })
unfolding parse_short_volume
current_directory = refl

-- A source in the home directory is looked for under the base directory.
home_directory :
    parse_short_volume (codes "/srv/app") (codes "~/d:/d:ro")
    ≡ some (record {
      kind = some (codes "bind");
      source = some (codes "/srv/app/~/d");
      target = some (codes "/d");
      read_only = some true;
    })
unfolding parse_short_volume
home_directory = refl

named_stages :
    dockerfile_stages (codes "FROM a AS deps\n# FROM x AS y\nfrom b as \"build\"\nFROM c\n")
    ≡ codes "build" ∷ codes "deps" ∷ []
unfolding dockerfile_stages lines_from drop_cr
named_stages = refl

-- A number as a label is left out.
number_label :
    parse_labels (object (field (codes "port") (int (pos 80)) no_fields)) ≡ object no_fields
unfolding parse_labels
number_label = refl

abbrev env : List (Text × Text)
env = (codes "H", codes "db") ∷ (codes "E", []) ∷ []

interpolate_string_lem_example :
    (interpolate_string (codes "tcp://") env ≡ codes "tcp://")
    × (interpolate_string (codes "tcp://${H}:1") env
        ≡ codes "tcp://"
          ++ (resolve_env_expr (codes "H") env ++ interpolate_string (codes ":1") env))
unfolding contains contains_char
interpolate_string_lem_example =
    interpolate_string_lem env (codes "tcp://") (codes "H") (codes ":1") refl refl

resolve_env_expr_forms_example :
    (resolve_env_expr (codes "E:-x") env ≡ codes "x")
    × (resolve_env_expr (codes "E-x") env ≡ [])
    × (resolve_env_expr (codes "E") env ≡ [])
unfolding contains_char split_default dip_rust.Env.lookup
resolve_env_expr_forms_example = resolve_env_expr_forms env (codes "E") (codes "x") refl refl refl

abbrev service : Fields
service =
    field (codes "<<")
      (object (
        field (codes "image") (string (codes "a"))
          (field (codes "user") (string (codes "u")) no_fields)))
      (field (codes "image") (string (codes "b")) no_fields)

get-merge_service_map_example :
    found_in (codes "user") (merge_service_map (object service))
    ≡ or_else (get (codes "user") service) (base_entry (codes "user") (get (codes "<<") service))
unfolding text_lt text_eq
get-merge_service_map_example =
    get-merge_service_map (codes "user") service ((refl, tt), (tt, tt)) refl

abbrev no_external : External
no_external = record { is_f64 = λ s. false; display = λ v. []; debug = λ c. [] }

load_project_compose-Loaded_example : Ends Loaded (
    load_project_compose no_external
      (codes "services:\n  app:\n    volumes:\n      - ./d:/d\n")
      []
      (codes "/srv"))
load_project_compose-Loaded_example =
    load_project_compose-Loaded no_external
      (codes "services:\n  app:\n    volumes:\n      - ./d:/d\n") [] (codes "/srv") refl

normalize_path_lem_example :
    (normalize_path (codes "/a/b") ≡ codes "/a/b")
    × (normalize_path (codes "/x" ++ b'/' ∷ (codes "y" ++ (codes "/../" ++ codes "./z")))
        ≡ normalize_path (codes "/x" ++ b'/' ∷ codes "./z"))
    × (normalize_path (codes "/x" ++ b'/' ∷ (codes "./" ++ codes "./z"))
        ≡ normalize_path (codes "/x" ++ b'/' ∷ codes "./z"))
    × (normalize_path (codes "/../" ++ codes "./z") ≡ normalize_path (b'/' ∷ codes "./z"))
    × (normalize_path (normalize_path (codes "/x")) ≡ normalize_path (codes "/x"))
unfolding dip_rust.Text.join dip_rust.Text.text_eq dip_rust.Text.contains_char
normalize_path_lem_example =
    normalize_path_lem (codes "/x") (codes "y") (codes "./z") true (codes "a" ∷ codes "b" ∷ [])
      (refl, refl, refl) ((refl, refl, refl), ((refl, refl, refl), tt))
