-- ===== src/Proxy/Router/Matching.antt =====
-- The tests of the router against the patterns that they stand for.
use dip_rust.Base.{◌≡◌, ap, ◌∙◌, true, false, ◌∷◌, ◌++◌, arith, &&-true, drop}
use dip_rust.Proxy.Config.{Route}
use dip_rust.Proxy.Router.{is_exact, is_wildcard}
use dip_rust.Text.Affix.{starts_with-append, starts_with_sound, ends_with-append, ends_with_sound}
use dip_rust.Text.Equality.{text_eq_iff}
use dip_rust.Text.{Text, codes, starts_with, contains_char}

-- The route names the host itself.
pub record IsExact (host : Text) (r : Route) : Type 0 where
  pub no_star : contains_char b'*' r.domain ≡ false
  pub same : r.domain ≡ host

-- The route's pattern is `*.suffix`, and the host is anything before `.suffix`.
pub record IsWildcard (host : Text) (r : Route) : Type 0 where
  pub suffix : Text
  pub label : Text
  pub pattern_is : r.domain ≡ b'*' ∷ b'.' ∷ suffix
  pub host_is : host ≡ label ++ (b'.' ∷ suffix)

pub is_exact-IsExact : (host : Text) (r : Route) → is_exact host r ≡ true → IsExact host r
unfolding is_exact
is_exact-IsExact host r h = ground (arith, text_eq_iff r.domain host)

pub IsExact-is_exact : (host : Text) (r : Route) → IsExact host r → is_exact host r ≡ true
unfolding is_exact
IsExact-is_exact host r h = ground (arith, text_eq_iff r.domain host)

pub is_wildcard-IsWildcard :
    (host : Text) (r : Route) → is_wildcard host r ≡ true → IsWildcard host r
unfolding is_wildcard
is_wildcard-IsWildcard host r h =
    let (starred, ends) = &&-true (starts_with (codes "*.") r.domain) _ h in
    let (suffix, e) = starts_with_sound (codes "*.") r.domain starred in
    let (label, f) = ends_with_sound (drop 1 r.domain) host ends in
    record {
      suffix = suffix;
      label = label;
      pattern_is = e;
      host_is = f ∙ ap (λ (d : Text). label ++ drop 1 d) e;
    }

pub IsWildcard-is_wildcard :
    (host : Text) (r : Route) → IsWildcard host r → is_wildcard host r ≡ true
unfolding is_wildcard
IsWildcard-is_wildcard host r h =
    rw (h.pattern_is, h.host_is)
      (ground (
        arith,
        starts_with-append (codes "*.") h.suffix,
        ends_with-append h.label (b'.' ∷ h.suffix),
      ))
