-- ===== src/Proxy/Upstream.antt =====
-- The header rewriting of src/proxy/upstream.rs. The connections themselves are left out.
pub mod Forwarding
mod Tests
use dip_rust.Base.{
  is_nil, subst, some_inj, ltb→lt, ltb-false→le, leb→le, ℕ, zero, suc, ◌+◌, ◌-◌, ◌*◌, ◌/◌, ◌%◌, ◌^◌,
  ◌≤◌, ◌<◌, min, ◌≡◌, refl, sym, ap, ◌∙◌, ◌≢◌, ◌↔◌, ◌⊎◌, inl, inr, Bool, true, false, not, ◌&&◌,
  ◌||◌, Option, none, some, List, [], ◌∷◌, ◌++◌, map, append_assoc, append-nil, arith, ltb, leb,
  ◌==◌, if◌then◌else◌, ==_iff, Bool-cases, &&-true, Option-cases, ◌>>=◌, unwrap_or, or_else,
  is_some, length, get_elem?, take, drop, filter, any, find, Has, Has-append_left, Has-append_right,
  All, All-append, All-Has, All_of_Has, length-append, take-append-drop, take-length-append,
  drop-length-append, length-take, length-drop, get_elem?-lt,
}
use dip_rust.Proxy.Headers.{Headers}
use dip_rust.Text.{
  Text, codes, char_len, byte_len, text_eq, is_empty, strip_prefix, starts_with, ends_with,
  contains_char, contains, is_whitespace, trim_start_by, keep_unless, trim_end_by, trim_start,
  trim_end, trim, trim_char, split_once, cons_to_first, split, before, join, drop_cr, lines_from,
  lines, replace_char, ascii_lower, to_ascii_lowercase, eq_ignore_ascii_case,
}

abbrev pub max_buffered_body : ℕ
max_buffered_body = 16 * 1024 * 1024

-- Whether the body is streamed and not collected; `none` is a body of unknown size.
unfoldable pub is_streamed : Option ℕ → Bool
is_streamed none = true
is_streamed (some n) = ltb max_buffered_body n

abbrev pub hop_by_hop : List Text
hop_by_hop =
    codes "connection"
    ∷ codes "keep-alive"
    ∷ codes "proxy-connection"
    ∷ codes "transfer-encoding"
    ∷ codes "te"
    ∷ codes "upgrade"
    ∷ codes "proxy-authorization"
    ∷ codes "proxy-authenticate"
    ∷ codes "trailer"
    ∷ []

module _ (H : Headers) where
  open H use {Map, Value, get, insert, remove, from_str, to_str, from_static}

  unfoldable pub remove_all : List Text → Map → Map
  remove_all [] headers = headers
  remove_all (name ∷ names) headers = remove_all names (remove name headers)

  -- `if let Ok(val) = HeaderValue::from_str(text) { headers.insert(name, val) }`
  unfoldable pub insert_str : Text → Text → Map → Map
  insert_str name text headers = elim (from_str text) [
    | none ↦ headers
    | some val ↦ insert name val headers
  ]

  unfoldable pub inject_host : Text → Map → Map
  inject_host host headers =
      if is_some (get (codes "host") headers)
      then headers
      else insert_str (codes "host") host headers

  -- The chain that came with the request, and the client behind it.
  unfoldable pub forwarded_for : Text → Map → Text
  forwarded_for client_ip headers = elim (get (codes "x-forwarded-for") headers >>= to_str) [
    | some existing ↦ existing ++ (codes ", " ++ client_ip)
    | none ↦ client_ip
  ]

  unfoldable pub forward_headers : Map → Text → Text → Map
  forward_headers headers host client_ip =
      let cleaned = inject_host host (remove_all hop_by_hop headers) in
      let chained =
        insert_str (codes "x-forwarded-for") (forwarded_for client_ip cleaned) cleaned in
      let named = insert_str (codes "x-real-ip") client_ip chained in
      let secured = insert (codes "x-forwarded-proto") (from_static (codes "https")) named in
      insert_str (codes "x-forwarded-host") host secured
