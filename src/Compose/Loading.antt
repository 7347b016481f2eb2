-- ===== src/Compose/Loading.antt =====
-- Loading a Compose file: `load_project_compose`, on the file's content and the project's variables.
use mathlib.Core.Option
use dip_rust.Yaml.Result.{Result, ok, ◌>>=◌, Ends, Ends->>=}
use dip_rust.Yaml.Block.Sizes.{Anything}
use dip_rust.Yaml.Flow.{External}
use dip_rust.Yaml.Parser.{from_str}
use dip_rust.Yaml.Parser.Ending.{Anything-from_str}
use dip_rust.Compose.Variables.{interpolate_value}
use dip_rust.Compose.Services.{
  ServiceConfig, service_of, parse_service, parse_services, parse_compose_value, merge_service_map,
  named, services_in,
}
use dip_rust.Compose.Volumes.{parse_volumes, cons_some}
use dip_rust.Compose.Volumes.Short.{AbsoluteBind, parse_volumes-AbsoluteBind}
use dip_rust.Compose.Paths.{is_absolute}
use dip_rust.Env.{Env}
use dip_rust.Json.{
  Value, Fields, null, bool, int, float, string, array, object, no_fields, field, get, as_object,
}
use dip_rust.Base.{
  length-map, ℤ, pos, negsuc, any_of_Has, any_sound, le→ltb-false, is_nil, subst, some_inj, ltb→lt,
  ltb-false→le, leb→le, ℕ, zero, suc, ◌+◌, ◌-◌, ◌*◌, ◌/◌, ◌%◌, ◌^◌, ◌≤◌, ◌<◌, min, ◌≡◌, refl, sym,
  ap, ◌∙◌, ◌≢◌, ◌↔◌, ◌⊎◌, inl, inr, Bool, true, false, not, ◌&&◌, ◌||◌, Option, none, some, List,
  [], ◌∷◌, ◌++◌, map, append_assoc, append-nil, arith, ltb, leb, ◌==◌, if◌then◌else◌, ==_iff,
  Bool-cases, &&-true, Option-cases, unwrap_or, or_else, is_some, length, get_elem?, take, drop,
  filter, any, find, Has, Has-append_left, Has-append_right, All, All-append, All-Has, All_of_Has,
  length-append, take-append-drop, take-length-append, drop-length-append, length-take, length-drop,
  get_elem?-lt,
}
use dip_rust.Text.{Text, codes}

-- The services, or `none` if the file has no services map; an error is the YAML reader's.
unfoldable pub load_project_compose :
    External → Text → Env → Text → Result (Option (List (Text × ServiceConfig)))
unfolding from_str interpolate_value parse_compose_value
load_project_compose ext content env base_dir =
    from_str ext content >>= λ v. ok (parse_compose_value base_dir (interpolate_value env v))

-- All bind mounts of a service have absolute sources.
abbrev AbsoluteBinds : Text × ServiceConfig → Type 0
AbsoluteBinds (name, service) = All AbsoluteBind (ServiceConfig.volumes service)

abbrev pub Loaded : Option (List (Text × ServiceConfig)) → Type 0
Loaded none = Unit
Loaded (some services) = All AbsoluteBinds services

abbrev get_services : Fields → Option Fields
get_services known = dip_rust.Base.◌>>=◌ (get (codes "services") known) as_object

module _ (base_dir : Text) (h : is_absolute base_dir ≡ true) where
  volumes_of :
      (o : Option Value) → All AbsoluteBind (unwrap_or (Option.map (parse_volumes base_dir) o) [])
  volumes_of none = tt
  volumes_of (some v) = parse_volumes-AbsoluteBind base_dir v h

  AbsoluteBinds-named :
      (name : Text) (o : Option Fields) (rest : List (Text × ServiceConfig))
      → All AbsoluteBinds rest
      → All AbsoluteBinds (cons_some (named name (Option.map (service_of base_dir) o)) rest)
  unfolding service_of
  AbsoluteBinds-named name none rest k = k
  AbsoluteBinds-named name (some service) rest k = (volumes_of (get (codes "volumes") service), k)

  AbsoluteBinds-parse_services :
      (services : Fields) → All AbsoluteBinds (parse_services base_dir services)
  unfolding parse_services parse_service
  AbsoluteBinds-parse_services no_fields = tt
  AbsoluteBinds-parse_services (field name v rest) =
      AbsoluteBinds-named name (merge_service_map v) (parse_services base_dir rest)
        (AbsoluteBinds-parse_services rest)

  Loaded-services_in : (o : Option Fields) → Loaded (services_in base_dir o)
  Loaded-services_in none = tt
  Loaded-services_in (some services) = AbsoluteBinds-parse_services services

  Loaded-parse_compose_value : (v : Value) → Loaded (parse_compose_value base_dir v)
  unfolding parse_compose_value
  Loaded-parse_compose_value (object known) = Loaded-services_in (get_services known)
  Loaded-parse_compose_value null = tt
  Loaded-parse_compose_value (bool b) = tt
  Loaded-parse_compose_value (int i) = tt
  Loaded-parse_compose_value (float t) = tt
  Loaded-parse_compose_value (string s) = tt
  Loaded-parse_compose_value (array items) = tt

-- For every content and all variables, loading ends, with an error of the YAML reader, without a
-- services map, or with services; and with an absolute base directory, every bind mount of a service
-- has an absolute source, if it has one.
pub load_project_compose-Loaded :
    (ext : External) (content : Text) (env : Env) (base_dir : Text)
    → is_absolute base_dir ≡ true
    → Ends Loaded (load_project_compose ext content env base_dir)
unfolding load_project_compose
load_project_compose-Loaded ext content env base_dir h =
    Ends->>= Anything Loaded (from_str ext content) _ (Anything-from_str ext content)
      (λ v _. Loaded-parse_compose_value base_dir h (interpolate_value env v))
