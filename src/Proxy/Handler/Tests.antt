-- ===== src/Proxy/Handler/Tests.antt =====
-- The handlers at concrete requests.
use dip_rust.Base.{ℕ, ◌≡◌, refl, ◌⊎◌, true, false, some, List, [], ◌∷◌, ◌++◌, Has}
use dip_rust.Proxy.Config.{Route}
use dip_rust.Proxy.Handler.Routing.{Describes, asked, handle_https-forwarded, handle_https-own}
use dip_rust.Proxy.Handler.{
  redirect_location, format_error_chain, proxy_error_hint, error_body, Outcome, answered, failed,
  forwarded, own, handle_https,
}
use dip_rust.Proxy.Router.Matching.{IsExact, IsWildcard}
use dip_rust.Text.{
  Text, codes, char_len, byte_len, text_eq, is_empty, strip_prefix, starts_with, ends_with,
  contains_char, contains, is_whitespace, trim_start_by, keep_unless, trim_end_by, trim_start,
  trim_end, trim, trim_char, split_once, cons_to_first, split, before, join, drop_cr, lines_from,
  lines, replace_char, ascii_lower, to_ascii_lowercase, eq_ignore_ascii_case,
}

redirects :
    redirect_location (some (codes "app.test:8080")) (some (codes "/a?b")) 8443
    ≡ codes "https://app.test:8443/a?b"
unfolding redirect_location before dip_rust.Text.Decimal.to_decimal
redirects = refl

chain_joined :
    format_error_chain (codes "client error (Connect)") (
      codes "tcp connect error"
      ∷ codes "client error (Connect)"
      ∷ codes "Connection refused (os error 61)"
      ∷ [])
    ≡ codes "client error (Connect): tcp connect error: Connection refused (os error 61)"
unfolding format_error_chain join text_eq
chain_joined = refl

abbrev table : List Route
table = record { domain = codes "*.test"; upstream = codes "172.18.0.4:80" } ∷ []

abbrev upgrade : Text → Outcome ℕ
upgrade upstream = answered 101

abbrev http : Text → Text → Outcome ℕ
http upstream host = failed (codes "timed out") []

upgraded : handle_https table (codes "app.test") true upgrade http ≡ forwarded 101
unfolding handle_https dip_rust.Proxy.Router.match_route dip_rust.Proxy.Router.is_exact
    contains_char dip_rust.Proxy.Router.max_by_key dip_rust.Proxy.Router.is_wildcard starts_with
    ends_with
upgraded = refl

handle_https-forwarded_example :
    (r : Route) × Has r table
    × (IsExact (codes "app.test") r ⊎ IsWildcard (codes "app.test") r)
    × (asked table (codes "app.test") true upgrade http r ≡ answered 101)
handle_https-forwarded_example =
    handle_https-forwarded table (codes "app.test") true upgrade http 101 upgraded

abbrev timeout_body : Text
timeout_body =
    codes
      "dip-proxy: upstream error: timed out\nhint: connection to 172.18.0.4:80 timed out; the container network may be unreachable or the service may be stuck accepting connections\n"

timed_out : handle_https table (codes "app.test") false upgrade http ≡ own 502 timeout_body
unfolding handle_https dip_rust.Proxy.Router.match_route dip_rust.Proxy.Router.is_exact
    contains_char dip_rust.Proxy.Router.max_by_key dip_rust.Proxy.Router.is_wildcard starts_with
    ends_with error_body format_error_chain join proxy_error_hint contains
timed_out = refl

handle_https-own_example :
    ((◌≡◌ {A = ℕ} 502 404)
      × (timeout_body ≡ codes "dip-proxy: no route for '" ++ (codes "app.test" ++ codes "'\n"))
      × ((r : Route)
          → Has r table
          → ¬ IsExact (codes "app.test") r × ¬ IsWildcard (codes "app.test") r))
    ⊎ ((◌≡◌ {A = ℕ} 502 502)
        × ((r : Route) × (err : Text) × (sources : List Text) × Has r table
            × (IsExact (codes "app.test") r ⊎ IsWildcard (codes "app.test") r)
            × (asked table (codes "app.test") false upgrade http r ≡ failed err sources)
            × Describes (codes "upstream error") err sources timeout_body))
handle_https-own_example =
    handle_https-own table (codes "app.test") false upgrade http 502 timeout_body timed_out
