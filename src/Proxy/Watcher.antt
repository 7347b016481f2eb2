-- ===== src/Proxy/Watcher.antt =====
-- The container watcher of src/proxy/watcher.rs. The label map of an event is an association list
-- in the order of its iteration; what `docker inspect` prints is an argument. A start is handled in
-- a task of its own, some time after its event is read.
pub mod Table
pub mod Runs
pub mod Backoff
mod Tests
use dip_rust.Base.{
  is_nil, subst, some_inj, ltb→lt, ltb-false→le, leb→le, ℕ, zero, suc, ◌+◌, ◌-◌, ◌*◌, ◌/◌, ◌%◌, ◌^◌,
  ◌≤◌, ◌<◌, min, ◌≡◌, refl, sym, ap, ◌∙◌, ◌≢◌, ◌↔◌, ◌⊎◌, inl, inr, Bool, true, false, not, ◌&&◌,
  ◌||◌, Option, none, some, List, [], ◌∷◌, ◌++◌, map, append_assoc, append-nil, arith, ltb, leb,
  ◌==◌, if◌then◌else◌, ==_iff, Bool-cases, &&-true, Option-cases, ◌>>=◌, unwrap_or, or_else,
  is_some, length, get_elem?, take, drop, filter, any, find, Has, Has-append_left, Has-append_right,
  All, All-append, All-Has, All_of_Has, length-append, take-append-drop, take-length-append,
  drop-length-append, length-take, length-drop, get_elem?-lt,
}
use dip_rust.Proxy.Config.{Route}
use dip_rust.Text.{
  Text, codes, char_len, byte_len, text_eq, is_empty, strip_prefix, starts_with, ends_with,
  contains_char, contains, is_whitespace, trim_start_by, keep_unless, trim_end_by, trim_start,
  trim_end, trim, trim_char, split_once, cons_to_first, split, before, join, drop_cr, lines_from,
  lines, replace_char, ascii_lower, to_ascii_lowercase, eq_ignore_ascii_case,
}

abbrev pub Attributes : Type 0
Attributes = List (Text × Text)

pub record DockerEvent : Type 0 where
  pub action : Text
  pub id : Text
  pub attributes : Attributes

-- `"domain:port"` or `"domain"`, perhaps quoted.
unfoldable pub parse_host_value : Text → Text × Text
parse_host_value raw =
    let value = trim_char b'\'' (trim_char b'"' (trim raw)) in
    elim (split_once b':' value) [ some (d, p) ↦ (trim d, trim p) | none ↦ (value, codes "80") ]

unfoldable pub is_host_label : Text → Bool
is_host_label k = text_eq k (codes "dip.host") || starts_with (codes "dip.host.") k

unfoldable pub dip_host_entries : Attributes → List (Text × Text)
dip_host_entries attrs =
    map (λ (kv : Text × Text). parse_host_value kv.1)
      (filter (λ (kv : Text × Text). is_host_label kv.0) attrs)

-- The address in what the command printed; `none` if it could not be run.
unfoldable pub container_ip : Option Text → Option Text
container_ip output = do raw ← output; let ip = trim raw; if is_empty ip then none else some ip

-- `w.retain(..); w.push(..)` for each entry.
unfoldable pub publish : Text → List (Text × Text) → List Route → List Route
publish ip [] routes = routes
publish ip ((domain, port) ∷ entries) routes = publish ip entries (
    filter (λ r. not (text_eq r.domain domain)) routes
    ++ (record { domain = domain; upstream = ip ++ (b':' ∷ port) } ∷ []))

unfoldable pub handle_start : DockerEvent → Option Text → List Route → List Route
handle_start event inspected routes =
    let entries = dip_host_entries event.attributes in
    if is_nil entries
    then routes
    else elim (container_ip inspected) [ none ↦ routes | some ip ↦ publish ip entries routes ]

unfoldable pub handle_stop : DockerEvent → List Route → List Route
handle_stop event routes =
    let domains = map (λ (e : Text × Text). e.0) (dip_host_entries event.attributes) in
    if is_nil domains
    then routes
    else filter (λ r. not (any (λ d. text_eq d r.domain) domains)) routes

-- The shared table, and the start events whose tasks have not run yet.
pub record Watch : Type 0 where
  pub routes : List Route
  pub pending : List DockerEvent

abbrev pub is_stop : Text → Bool
is_stop action =
    text_eq action (codes "stop")
    || text_eq action (codes "die")
    || text_eq action (codes "kill")
    || text_eq action (codes "destroy")

-- One round of the loop of `watch_loop`: `none` is a line that is no event.
unfoldable pub receive : Option DockerEvent → Watch → Watch
receive none w = w
receive (some event) w =
    if text_eq event.action (codes "start")
    then record w { pending = w.pending ++ event ∷ [] }
    else if is_stop event.action
    then record w { routes = handle_stop event w.routes }
    else w

-- The delay in seconds before the next attempt, after the loop ended well or with an error.
unfoldable pub next_backoff : Bool → ℕ → ℕ
next_backoff true backoff = 2
next_backoff false backoff = min (backoff * 2) 30
