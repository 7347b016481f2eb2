-- ===== src/Proxy/Handler.antt =====
-- The request handlers of src/proxy/handler.rs. What a header holds and what the upstream answers
-- are arguments; logging is left out.
pub mod Routing
pub mod Chain
mod Tests
use mathlib.Core.Option
use dip_rust.Base.{
  is_nil, subst, some_inj, ltb→lt, ltb-false→le, leb→le, ℕ, zero, suc, ◌+◌, ◌-◌, ◌*◌, ◌/◌, ◌%◌, ◌^◌,
  ◌≤◌, ◌<◌, min, ◌≡◌, refl, sym, ap, ◌∙◌, ◌≢◌, ◌↔◌, ◌⊎◌, inl, inr, Bool, true, false, not, ◌&&◌,
  ◌||◌, Option, none, some, List, [], ◌∷◌, ◌++◌, map, append_assoc, append-nil, arith, ltb, leb,
  ◌==◌, if◌then◌else◌, ==_iff, Bool-cases, &&-true, Option-cases, ◌>>=◌, unwrap_or, or_else,
  is_some, length, get_elem?, take, drop, filter, any, find, Has, Has-append_left, Has-append_right,
  All, All-append, All-Has, All_of_Has, length-append, take-append-drop, take-length-append,
  drop-length-append, length-take, length-drop, get_elem?-lt,
}
use dip_rust.Proxy.Config.{Route}
use dip_rust.Proxy.Router.{match_route}
use dip_rust.Text.Decimal.{to_decimal}
use dip_rust.Text.{
  Text, codes, char_len, byte_len, text_eq, is_empty, strip_prefix, starts_with, ends_with,
  contains_char, contains, is_whitespace, trim_start_by, keep_unless, trim_end_by, trim_start,
  trim_end, trim, trim_char, split_once, cons_to_first, split, before, join, drop_cr, lines_from,
  lines, replace_char, ascii_lower, to_ascii_lowercase, eq_ignore_ascii_case,
}

-- The `Location` of the redirect to HTTPS; the host header is `none` if it is missing or no text.
unfoldable pub redirect_location : Option Text → Option Text → ℕ → Text
redirect_location host_header path_and_query https_port =
    let host = before b':' (unwrap_or host_header (codes "localhost")) in
    let path = unwrap_or path_and_query (codes "/") in
    if https_port == 443
    then codes "https://" ++ (host ++ path)
    else codes "https://" ++ (host ++ (b':' ∷ (to_decimal https_port ++ path)))

-- The host of a request: that of the header without its port, else that of the request's URI.
unfoldable pub extract_host : Option Text → Option Text → Text
extract_host (some host) uri_host = before b':' host
extract_host none (some host) = host
extract_host none none = []

unfoldable pub is_upgrade_request : Option Text → Bool
is_upgrade_request connection =
    unwrap_or (Option.map (λ v. contains (codes "upgrade") (to_ascii_lowercase v)) connection) false

-- `err.to_string()` and the texts of its sources, from the error inwards.
abbrev pub ErrorChain : Type 0
ErrorChain = List Text

unfoldable pub chain_from : List Text → ErrorChain → List Text
chain_from parts [] = parts
chain_from parts (text ∷ sources) =
    chain_from (if any (λ part. text_eq part text) parts then parts else parts ++ text ∷ []) sources

unfoldable pub format_error_chain : Text → ErrorChain → Text
unfolding chain_from
format_error_chain err sources = join (codes ": ") (chain_from (err ∷ []) sources)

unfoldable pub proxy_error_hint : Text → Text → Option Text
proxy_error_hint detail upstream =
    let lower = to_ascii_lowercase detail in
    let has = λ (words : Text). contains words lower in
    if has (codes "socks agent")
    then some (
        codes
          "the connection goes through whalet's SOCKS agent and it failed; check `whalet status` (or set DIP_SOCKS=off to force direct connects)")
    else if has (codes "connection refused")
        || has (codes "os error 61")
        || has (codes "os error 111")
    then some (
        codes "upstream refused TCP connection; check that the service is running and listening on "
        ++ (upstream ++ codes ", then run `dip proxy sync` if the container IP changed"))
    else if has (codes "timed out") || has (codes "timeout") || has (codes "operation timed out")
    then some (
        codes "connection to "
        ++ (upstream
            ++ codes
                " timed out; the container network may be unreachable or the service may be stuck accepting connections"))
    else if has (codes "no route to host")
        || has (codes "network is unreachable")
        || has (codes "host is down")
    then some (
        codes "cannot reach "
        ++ (upstream
            ++ codes
                "; the route may point at a stale container IP, so try `dip proxy sync` or restart the project"))
    else if has (codes "invalid uri")
    then some
        (codes "proxy route target `" ++ (upstream ++ codes "` is not a valid host:port upstream"))
    else none

unfoldable pub error_body : Text → Text → Text → Text
error_body label detail upstream =
    codes "dip-proxy: "
    ++ (label
        ++ (codes ": "
            ++ (detail
                ++ (codes "\n" ++ elim (proxy_error_hint detail upstream) [
                  | none ↦ []
                  | some hint ↦ codes "hint: " ++ (hint ++ codes "\n")
                ]))))

-- What came of a request that was passed on: a response, or an error with its sources.
pub data Outcome (R : Type 0) : Type 0 where
  answered : R → Outcome R
  failed : Text → ErrorChain → Outcome R

-- The reply of the proxy: the upstream's, or its own with a status and a body.
pub data Reply (R : Type 0) : Type 0 where
  forwarded : R → Reply R
  own : ℕ → Text → Reply R

module _ {R : Type 0} where
  unfoldable pub reply_to : Text → Text → Outcome R → Reply R
  reply_to label upstream (answered r) = forwarded r
  reply_to label upstream (failed err sources) =
      own 502 (error_body label (format_error_chain err sources) upstream)

  -- `upgrade` and `http` pass the request on to an upstream.
  unfoldable pub handle_https :
      List Route → Text → Bool → (Text → Outcome R) → (Text → Text → Outcome R) → Reply R
  unfolding reply_to
  handle_https routes host wants_upgrade upgrade http =
      elim (Option.map (λ (r : Route). r.upstream) (match_route host routes)) [
        | none ↦ own 404 (codes "dip-proxy: no route for '" ++ (host ++ codes "'\n"))
        | some upstream ↦
            if wants_upgrade
            then reply_to (codes "upgrade error") upstream (upgrade upstream)
            else reply_to (codes "upstream error") upstream (http upstream host)
      ]
