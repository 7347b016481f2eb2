-- ===== src/Proxy/Routes/Edits.antt =====
-- What the edits of the routing table leave.
use dip_rust.Text.Equality.{text_eq_self, text_eq_sym}
use dip_rust.Proxy.Config.{Route}
use dip_rust.Proxy.Router.{match_route, is_exact, is_wildcard, max_by_key}
use dip_rust.Proxy.Routes.{retain_others, run_add}
use dip_rust.Base.{
  ◌≡◌, refl, inl, inr, Bool, true, false, not, ◌&&◌, ◌||◌, Option, none, some, List, [], ◌∷◌, ◌++◌,
  Bool-cases, filter, find,
}
use dip_rust.Text.{Text, byte_len, text_eq, contains_char}

module _ (domain : Text) (last : Route) (exact : is_exact domain last ≡ true) where
  -- The route at the end is found, as no route before it has the domain.
  find_last :
      (routes : List Route)
      → find
          (is_exact domain)
          (filter (λ r. not (text_eq domain (Route.domain r) || false)) routes ++ last ∷ [])
        ≡ some last
  unfolding is_exact
  find_last [] = rw exact refl
  find_last (r ∷ routes) = elim (Bool-cases (text_eq domain (Route.domain r))) [
    | inl h ↦ rw h (find_last routes)
    | inr h ↦ rw (h, other r (text_eq_sym domain (Route.domain r) h)) (find_last routes)
  ]
    where
      no_pattern : (b c : Bool) → c ≡ false → b && c ≡ false
      no_pattern true c h = h
      no_pattern false c h = refl

      other : (r : Route) → text_eq (Route.domain r) domain ≡ false → is_exact domain r ≡ false
      other r h = no_pattern (not (contains_char b'*' (Route.domain r))) _ h

-- A route that is added for a domain that is no pattern is the one that the proxy chooses for it,
-- whatever the table held before.
pub match_route-run_add :
    (domain upstream : Text) (routes : List Route)
    → contains_char b'*' domain ≡ false
    → match_route domain (run_add domain upstream routes)
      ≡ some (record { domain = domain; upstream = upstream })
unfolding match_route run_add retain_others is_exact
match_route-run_add domain upstream routes h =
    chosen (find (is_exact domain) (run_add domain upstream routes))
      (find_last domain added is_added routes)
  where
    added : Route
    added = record { domain = domain; upstream = upstream }

    is_added : is_exact domain added ≡ true
    is_added = rw (h, text_eq_self domain) refl

    chosen :
        (o : Option Route)
        → o ≡ some added
        → elim o [
          | some r ↦ some r
          | none ↦
              max_by_key
                (λ r. byte_len (Route.domain r))
                (filter (is_wildcard domain) (run_add domain upstream routes))
        ]
          ≡ some added
    chosen none e = cc
    chosen (some r) e = e
