-- ===== src/Proxy/Router.antt =====
-- `match_route` of src/proxy/router.rs.
pub mod Matching
pub mod Choice
mod Tests
use dip_rust.Base.{
  ℕ, zero, suc, ◌+◌, ◌-◌, ◌*◌, ◌/◌, ◌%◌, ◌^◌, ◌≤◌, ◌<◌, min, ◌≡◌, refl, sym, ap, ◌∙◌, ◌≢◌, ◌↔◌, ◌⊎◌,
  inl, inr, Bool, true, false, not, ◌&&◌, ◌||◌, Option, none, some, List, [], ◌∷◌, ◌++◌, map,
  append_assoc, append-nil, arith, ltb, leb, ◌==◌, if◌then◌else◌, ==_iff, Bool-cases, &&-true,
  Option-cases, ◌>>=◌, unwrap_or, or_else, is_some, length, get_elem?, take, drop, filter, any,
  find, Has, Has-append_left, Has-append_right, All, All-append, All-Has, All_of_Has, length-append,
  take-append-drop, take-length-append, drop-length-append, length-take, length-drop, get_elem?-lt,
}
use dip_rust.Proxy.Config.{Route}
use dip_rust.Text.{
  Text, codes, char_len, byte_len, text_eq, is_empty, strip_prefix, starts_with, ends_with,
  contains_char, contains, is_whitespace, trim_start_by, keep_unless, trim_end_by, trim_start,
  trim_end, trim, trim_char, split_once, cons_to_first, split, before, join, drop_cr, lines_from,
  lines, replace_char, ascii_lower, to_ascii_lowercase, eq_ignore_ascii_case,
}

-- `max_by_key`: of several greatest elements the last one is returned.
unfoldable pub max_from : (Route → ℕ) → Route → List Route → Route
max_from key best [] = best
max_from key best (r ∷ rs) = max_from key (if ltb (key r) (key best) then best else r) rs

unfoldable pub max_by_key : (Route → ℕ) → List Route → Option Route
unfolding max_from
max_by_key key [] = none
max_by_key key (r ∷ rs) = some (max_from key r rs)

-- The test of the exact search.
unfoldable pub is_exact : Text → Route → Bool
is_exact host r = not (contains_char b'*' r.domain) && text_eq r.domain host

-- The two filters of the wildcard search; the suffix is the domain without its `*`.
unfoldable pub is_wildcard : Text → Route → Bool
is_wildcard host r = starts_with (codes "*.") r.domain && ends_with (drop 1 r.domain) host

unfoldable pub match_route : Text → List Route → Option Route
match_route host routes = elim (find (is_exact host) routes) [
  | some r ↦ some r
  | none ↦ max_by_key (λ r. byte_len r.domain) (filter (is_wildcard host) routes)
]
