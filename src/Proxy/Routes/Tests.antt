-- ===== src/Proxy/Routes/Tests.antt =====
-- Runs of the edits of the routing table, and witnesses.
use dip_rust.Proxy.Config.{Route}
use dip_rust.Proxy.Router.{match_route}
use dip_rust.Json.{Value, string, object, no_fields, field}
use dip_rust.Proxy.Routes.{Container, parse_host_labels, unsync_from_project, run_add, run_remove}
use dip_rust.Proxy.Routes.Edits.{match_route-run_add}
use dip_rust.Base.{◌≡◌, refl, none, some, List, [], ◌∷◌}
use dip_rust.Text.{codes, starts_with, contains_char, is_whitespace}

abbrev some_labels : Value
some_labels = object (
    field (codes "dip.host") (string (codes "'app.test': 8080")) (
      field (codes "dip.host.api") (string (codes "api.test"))
        (field (codes "dip.hosts") (string (codes "x.test")) no_fields)))

abbrev app : Route
app = record { domain = codes "app.test"; upstream = codes "10.0.0.2:8080" }

abbrev api : Route
api = record { domain = codes "api.test"; upstream = codes "10.0.0.2:80" }

abbrev old : Route
old = record { domain = codes "app.test"; upstream = codes "10.0.0.9:80" }

abbrev foreign : Route
foreign = record { domain = codes "db.test"; upstream = codes "10.0.0.3:80" }

abbrev running : List Container
running =
    record { labels = some_labels; ip = some (codes "10.0.0.2") }
    ∷ record { labels = some_labels; ip = none }
    ∷ []

labels_are_read :
    parse_host_labels some_labels
    ≡ (codes "app.test", codes "8080") ∷ (codes "api.test", codes "80") ∷ []
unfolding parse_host_labels dip_rust.Text.text_eq is_whitespace starts_with
labels_are_read = refl

removed_by_hand : run_remove (codes "app.test") (old ∷ foreign ∷ []) ≡ some (foreign ∷ [])
unfolding run_remove
removed_by_hand = refl

nothing_to_remove : unsync_from_project running (foreign ∷ []) ≡ none
unfolding unsync_from_project is_whitespace starts_with
nothing_to_remove = refl

match_route-run_add_example :
    match_route
      (codes "app.test")
      (run_add (codes "app.test") (codes "10.0.0.2:8080") (old ∷ foreign ∷ []))
    ≡ some app
unfolding contains_char
match_route-run_add_example =
    match_route-run_add (codes "app.test") (codes "10.0.0.2:8080") (old ∷ foreign ∷ []) refl
