-- ===== src/Proxy/Router/Tests.antt =====
-- `match_route` at concrete tables, as in the tests of src/proxy/router.rs.
use dip_rust.Base.{◌≤◌, ◌≡◌, refl, ◌↔◌, ◌⊎◌, none, some, List, [], ◌∷◌, Has}
use dip_rust.Proxy.Config.{Route}
use dip_rust.Proxy.Router.Choice.{match_route_sound, match_route-none_iff}
use dip_rust.Proxy.Router.Matching.{IsExact, IsWildcard}
use dip_rust.Proxy.Router.{match_route}
use dip_rust.Text.{codes, byte_len, contains_char}
use Prim.Native.String.{String}

abbrev route : String → String → Route
route d u = record { domain = codes d; upstream = codes u }

abbrev table : List Route
table =
    route "*.test" "generic:8080"
    ∷ route "*.newline.test" "newline:9090"
    ∷ route "backend.newline.test" "backend:3000"
    ∷ []

most_specific :
    match_route (codes "api.newline.test") table ≡ some (route "*.newline.test" "newline:9090")
unfolding match_route dip_rust.Proxy.Router.is_exact contains_char dip_rust.Text.text_eq
    dip_rust.Proxy.Router.max_by_key dip_rust.Proxy.Router.is_wildcard dip_rust.Text.starts_with
    dip_rust.Text.ends_with byte_len
most_specific = refl

exact_beats_wildcard :
    match_route (codes "backend.newline.test") table
    ≡ some (route "backend.newline.test" "backend:3000")
unfolding match_route dip_rust.Proxy.Router.is_exact contains_char dip_rust.Text.text_eq
exact_beats_wildcard = refl

not_the_base_domain :
    match_route (codes "foo.test") (route "*.foo.test" "wildcard:8080" ∷ []) ≡ none
unfolding match_route dip_rust.Proxy.Router.is_exact contains_char dip_rust.Proxy.Router.max_by_key
    dip_rust.Proxy.Router.is_wildcard dip_rust.Text.starts_with dip_rust.Text.ends_with
not_the_base_domain = refl

match_route_sound_example :
    Has (route "*.newline.test" "newline:9090") table
    × (IsExact (codes "api.newline.test") (route "*.newline.test" "newline:9090")
        ⊎ (((r : Route) → Has r table → ¬ IsExact (codes "api.newline.test") r)
            × IsWildcard (codes "api.newline.test") (route "*.newline.test" "newline:9090")
            × ((r : Route)
                → Has r table
                → IsWildcard (codes "api.newline.test") r
                → byte_len r.domain ≤ byte_len (codes "*.newline.test"))))
match_route_sound_example =
    match_route_sound (codes "api.newline.test") table (route "*.newline.test" "newline:9090")
      most_specific

match_route-none_iff_example : (match_route (codes "other.org") table ≡ none) ↔ (
    (r : Route)
    → Has r table
    → ¬ IsExact (codes "other.org") r × ¬ IsWildcard (codes "other.org") r)
match_route-none_iff_example = match_route-none_iff (codes "other.org") table
