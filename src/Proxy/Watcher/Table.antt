-- ===== src/Proxy/Watcher/Table.antt =====
-- The routing table seen as a map from domains to upstreams, and the handlers as changes of it.
use dip_rust.Base.{
  is_nil, ◌≡◌, refl, inl, inr, Bool, true, false, not, Option, none, some, List, [], ◌∷◌, ◌++◌, map,
  append-nil, arith, if◌then◌else◌, Bool-cases, Option-cases, or_else, is_some, filter, any,
}
use dip_rust.Proxy.Config.{Route}
use dip_rust.Proxy.Watcher.{
  DockerEvent, container_ip, dip_host_entries, publish, handle_start, handle_stop,
}
use dip_rust.Text.Equality.{text_eq_iff}
use dip_rust.Text.{Text, text_eq}

-- The upstreams of a domain, in the order of the table.
unfoldable pub upstreams : List Route → Text → List Text
upstreams [] d = []
upstreams (r ∷ rs) d =
    let rest = upstreams rs d in if text_eq r.domain d then r.upstream ∷ rest else rest

-- The port of the last entry for a domain.
unfoldable pub last_port : List (Text × Text) → Text → Option Text
last_port [] d = none
last_port ((domain, port) ∷ entries) d =
    or_else (last_port entries d) (if text_eq domain d then some port else none)

upstreams-append :
    (rs qs : List Route) (d : Text) → upstreams (rs ++ qs) d ≡ upstreams rs d ++ upstreams qs d
unfolding upstreams
upstreams-append [] qs d = refl
upstreams-append (r ∷ rs) qs d = ground (arith, upstreams-append rs qs d)

module _ (keep : Route → Bool) (d : Text) where
  upstreams-filter_all :
      (rs : List Route)
      → ((r : Route) → r.domain ≡ d → keep r ≡ true)
      → upstreams (filter keep rs) d ≡ upstreams rs d
  unfolding upstreams
  upstreams-filter_all [] h = refl
  upstreams-filter_all (r ∷ rs) h =
      ground (arith, upstreams-filter_all rs h, text_eq_iff r.domain d, h r)

  upstreams-filter_none :
      (rs : List Route)
      → ((r : Route) → r.domain ≡ d → keep r ≡ false)
      → upstreams (filter keep rs) d ≡ []
  unfolding upstreams
  upstreams-filter_none [] h = refl
  upstreams-filter_none (r ∷ rs) h =
      ground (arith, upstreams-filter_none rs h, text_eq_iff r.domain d, h r)

-- What one entry does to the table.
upstreams_set :
    (domain upstream : Text) (rs : List Route) (d : Text)
    → upstreams
        (filter (λ r. not (text_eq r.domain domain)) rs
          ++ (record { domain = domain; upstream = upstream } ∷ []))
        d
      ≡ (if text_eq domain d then upstream ∷ [] else upstreams rs d)
unfolding upstreams
upstreams_set domain upstream rs d = elim (Bool-cases (text_eq domain d)) [
  | inl same ↦
      rw (upstreams-append, upstreams-filter_none _ d rs (λ r e. removed r e same))
        (rw (same, upstreams))
  | inr other ↦
      rw (upstreams-append, upstreams-filter_all _ d rs (λ r e. kept r e other))
        (rw (other, upstreams, append-nil))
]
  where
    removed :
        (r : Route) → r.domain ≡ d → text_eq domain d ≡ true → not (text_eq r.domain domain) ≡ false
    removed r e f = ground (arith, text_eq_iff r.domain domain, text_eq_iff domain d)

    kept :
        (r : Route) → r.domain ≡ d → text_eq domain d ≡ false → not (text_eq r.domain domain) ≡ true
    kept r e f = ground (arith, text_eq_iff r.domain domain, text_eq_iff domain d)

-- The upstreams of a domain that ran through `old` before entries were published with `ip`.
abbrev pub published : Text → Option Text → List Text → List Text
published ip none old = old
published ip (some port) old = (ip ++ (b':' ∷ port)) ∷ []

publish-published :
    (ip : Text) (entries : List (Text × Text)) (rs : List Route) (d : Text)
    → upstreams (publish ip entries rs) d ≡ published ip (last_port entries d) (upstreams rs d)
unfolding publish last_port
publish-published ip [] rs d = refl
publish-published ip ((domain, port) ∷ entries) rs d = ground (
  arith,
  publish-published ip entries
      (filter (λ r. not (text_eq r.domain domain)) rs
        ++ (record { domain = domain; upstream = ip ++ (b':' ∷ port) } ∷ []))
      d,
  upstreams_set domain (ip ++ (b':' ∷ port)) rs d,
)

-- After a start, a domain of the container's labels has one upstream, the container's address with
-- the port of the last label for it, and every other domain has the upstreams that it had. If the
-- address is not known, nothing changes.
pub handle_start-published :
    (event : DockerEvent) (inspected : Option Text) (rs : List Route) (d : Text)
    → upstreams (handle_start event inspected rs) d ≡ elim (container_ip inspected) [
      | none ↦ upstreams rs d
      | some ip ↦ published ip (last_port (dip_host_entries event.attributes) d) (upstreams rs d)
    ]
unfolding handle_start last_port
handle_start-published event inspected rs d = elim (Option-cases (container_ip inspected)) [
  | inl e ↦ ground arith
  | inr (ip, e) ↦ ground (arith, publish-published ip (dip_host_entries event.attributes) rs d)
]

any_domain-last_port :
    (entries : List (Text × Text)) (d : Text)
    → any (λ e. text_eq e d) (map (λ (e : Text × Text). e.0) entries)
      ≡ is_some (last_port entries d)
unfolding last_port
any_domain-last_port [] d = refl
any_domain-last_port ((domain, port) ∷ entries) d =
    ground (arith, any_domain-last_port entries d, Option-cases (last_port entries d))

abbrev domains : List (Text × Text) → List Text
domains = map (λ (e : Text × Text). e.0)

abbrev names : List Text → Text → Bool
names ds d = any (λ e. text_eq e d) ds

upstreams_retain :
    (ds : List Text) (rs : List Route) (d : Text)
    → upstreams (filter (λ r. not (names ds r.domain)) rs) d
      ≡ (if names ds d then [] else upstreams rs d)
upstreams_retain ds rs d = elim (Bool-cases (names ds d)) [
  | inl named ↦ rw named (upstreams-filter_none _ d rs (λ r e. rw (e, named)))
  | inr other ↦ rw other (upstreams-filter_all _ d rs (λ r e. rw (e, other)))
]

upstreams_stop :
    (entries : List (Text × Text)) (rs : List Route) (d : Text)
    → upstreams
        (if is_nil (domains entries)
          then rs
          else filter (λ r. not (names (domains entries) r.domain)) rs)
        d
      ≡ (if is_some (last_port entries d) then [] else upstreams rs d)
upstreams_stop [] rs d = unfold last_port in refl
upstreams_stop (e ∷ entries) rs d =
    rw (← any_domain-last_port (e ∷ entries) d) (upstreams_retain (domains (e ∷ entries)) rs d)

-- After a stop, the domains of the container's labels have no upstream, and every other domain has
-- the upstreams that it had.
pub handle_stop-upstreams :
    (event : DockerEvent) (rs : List Route) (d : Text)
    → upstreams (handle_stop event rs) d
      ≡ (if is_some (last_port (dip_host_entries event.attributes) d) then [] else upstreams rs d)
unfolding handle_stop
handle_stop-upstreams event rs d = upstreams_stop (dip_host_entries event.attributes) rs d
