-- ===== src/Proxy/Routes.antt =====
-- The edits of the routing table by src/commands/proxy/routes.rs: routes that are added and removed
-- by hand, and those that a project's containers bring. A result is the table that is saved, if one
-- is; certificates and the daemon are left out.
pub mod Edits
mod Tests
use dip_rust.Proxy.Config.{Route}
use dip_rust.Json.{Value, Fields, string, object, no_fields, field, as_str}
use dip_rust.Proxy.Watcher.{is_host_label}
use dip_rust.Base.{
  length-map, ℤ, pos, negsuc, any_of_Has, any_sound, le→ltb-false, is_nil, subst, some_inj, ltb→lt,
  ltb-false→le, leb→le, ℕ, zero, suc, ◌+◌, ◌-◌, ◌*◌, ◌/◌, ◌%◌, ◌^◌, ◌≤◌, ◌<◌, min, ◌≡◌, refl, sym,
  ap, ◌∙◌, ◌≢◌, ◌↔◌, ◌⊎◌, inl, inr, Bool, true, false, not, ◌&&◌, ◌||◌, Option, none, some, List,
  [], ◌∷◌, ◌++◌, map, append_assoc, append-nil, arith, ltb, leb, ◌==◌, if◌then◌else◌, ==_iff,
  Bool-cases, &&-true, Option-cases, ◌>>=◌, unwrap_or, or_else, is_some, length, get_elem?, take,
  drop, filter, any, find, Has, Has-append_left, Has-append_right, All, All-append, All-Has,
  All_of_Has, length-append, take-append-drop, take-length-append, drop-length-append, length-take,
  length-drop, get_elem?-lt,
}
use dip_rust.Text.{
  Text, codes, char_len, byte_len, text_eq, is_empty, strip_prefix, starts_with, ends_with,
  contains_char, contains, is_whitespace, trim_start_by, keep_unless, trim_end_by, trim_start,
  trim_end, trim, trim_char, split_once, cons_to_first, split, before, join, drop_cr, lines_from,
  lines, replace_char, ascii_lower, to_ascii_lowercase, eq_ignore_ascii_case,
}

-- The domain and the port of a label's value.
abbrev pub unquoted : Text → Text
unquoted s = trim_char b'\'' (trim_char b'"' (trim s))

abbrev pub with_domain : Text × Text → Option (Text × Text)
with_domain ([], port) = none
with_domain (c ∷ domain, port) = some (c ∷ domain, port)

unfoldable pub split_port : Text → Option (Text × Text) → Text × Text
split_port raw none = (raw, codes "80")
split_port raw (some (domain, port)) = (unquoted domain, trim port)

unfoldable pub host_entry : Text → Option (Text × Text)
unfolding split_port split_once trim_start_by trim_end_by
host_entry value =
    let raw = trim (unquoted value) in
    if is_empty raw then none else with_domain (split_port raw (split_once b':' raw))

abbrev pub cons_entry : Bool → Option (Text × Text) → List (Text × Text) → List (Text × Text)
cons_entry false entry entries = entries
cons_entry true none entries = entries
cons_entry true (some entry) entries = entry ∷ entries

unfoldable pub host_entries : Fields → List (Text × Text)
unfolding host_entry is_host_label
host_entries no_fields = []
host_entries (field key v rest) =
    cons_entry (is_host_label key) (host_entry (unwrap_or (as_str v) [])) (host_entries rest)

unfoldable pub parse_host_labels : Value → List (Text × Text)
unfolding host_entries
parse_host_labels (object labels) = host_entries labels
parse_host_labels _ = []

-- What the runtime says of a container.
pub record Container : Type 0 where
  pub labels : Value
  pub ip : Option Text

unfoldable pub routes_of : Option Text → List (Text × Text) → List Route
routes_of none entries = []
routes_of (some ip) [] = []
routes_of (some ip) ((domain, port) ∷ entries) =
    record { domain = domain; upstream = ip ++ (b':' ∷ port) } ∷ routes_of (some ip) entries

unfoldable pub discover_routes : List Container → List Route
unfolding routes_of parse_host_labels
discover_routes [] = []
discover_routes (c ∷ containers) =
    routes_of (Container.ip c) (parse_host_labels (Container.labels c))
    ++ discover_routes containers

abbrev pub entry_domains : List (Text × Text) → List Text
entry_domains [] = []
entry_domains ((domain, port) ∷ entries) = domain ∷ entry_domains entries

unfoldable pub discover_project_domains : List Container → List Text
unfolding parse_host_labels
discover_project_domains [] = []
discover_project_domains (c ∷ containers) =
    entry_domains (parse_host_labels (Container.labels c)) ++ discover_project_domains containers

abbrev pub domains_of : List Route → List Text
domains_of [] = []
domains_of (r ∷ routes) = Route.domain r ∷ domains_of routes

-- `retain(|r| !domains.contains(r.domain))`.
unfoldable pub retain_others : List Text → List Route → List Route
unfolding text_eq
retain_others domains routes =
    filter (λ r. not (any (λ domain. text_eq domain (Route.domain r)) domains)) routes

unfoldable pub run_add : Text → Text → List Route → List Route
unfolding retain_others
run_add domain upstream routes =
    retain_others (domain ∷ []) routes ++ record { domain = domain; upstream = upstream } ∷ []

unfoldable pub run_remove : Text → List Route → Option (List Route)
unfolding retain_others
run_remove domain routes =
    let left = retain_others (domain ∷ []) routes in
    if ltb (length left) (length routes) then some left else none

-- The containers are `none` if the discovery failed.
unfoldable pub sync_routes : List Route → List Route → List Route
unfolding retain_others
sync_routes discovered routes = retain_others (domains_of discovered) routes ++ discovered

unfoldable pub sync_discovered : List Route → List Route → Option (List Route)
unfolding sync_routes
sync_discovered [] routes = none
sync_discovered (r ∷ discovered) routes = some (sync_routes (r ∷ discovered) routes)

unfoldable pub sync_from_project : Option (List Container) → List Route → Option (List Route)
unfolding sync_discovered discover_routes
sync_from_project none routes = none
sync_from_project (some containers) routes = sync_discovered (discover_routes containers) routes

unfoldable pub unsync_from_project : List Container → List Route → Option (List Route)
unfolding discover_project_domains retain_others
unsync_from_project containers routes =
    let domains = discover_project_domains containers in
    let left = retain_others domains routes in
    if is_nil domains || length left == length routes then none else some left
