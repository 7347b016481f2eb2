-- ===== src/Proxy/Handler/Routing.antt =====
-- Which upstream a request reaches, and which replies the proxy makes itself.
use dip_rust.Base.{
  subst, ℕ, ◌≡◌, refl, sym, ap, ◌∙◌, ◌↔◌, ◌⊎◌, inl, inr, Bool, false, Option, none, some, List, [],
  ◌∷◌, ◌++◌, arith, if◌then◌else◌, Option-cases, Has,
}
use dip_rust.Proxy.Config.{Route}
use dip_rust.Proxy.Handler.Chain.{IsDistinct, chain_from_lem}
use dip_rust.Proxy.Handler.{
  Reply, chain_from, extract_host, error_body, format_error_chain, Outcome, answered, failed,
  forwarded, own, reply_to, handle_https,
}
use dip_rust.Proxy.Router.Choice.{match_route_sound, match_route-none_iff}
use dip_rust.Proxy.Router.Matching.{IsExact, IsWildcard}
use dip_rust.Proxy.Router.{match_route}
use dip_rust.Text.Split.{before-append, before_self}
use dip_rust.Text.{Text, codes, contains_char, join}

-- The host of a request is the host header without a port, whether it has one or not.
pub extract_host_lem :
    (host port : Text) (uri_host : Option Text)
    → contains_char b':' host ≡ false
    → (extract_host (some (host ++ (b':' ∷ port))) uri_host ≡ host)
      × (extract_host (some host) uri_host ≡ host)
unfolding extract_host
extract_host_lem host port uri_host h = (before-append b':' host port h, before_self b':' host h)

-- A body that names a label and then every text of an error and its sources once, on one line; a
-- hint may follow.
abbrev pub Describes : Text → Text → List Text → Text → Type 0
Describes label err sources body =
    (parts : List Text) × (hint : Text) × (body
      ≡ codes "dip-proxy: "
        ++ (label ++ (codes ": " ++ (join (codes ": ") parts ++ (codes "\n" ++ hint)))))
    × IsDistinct parts
    × ((m : Text) → Has m parts ↔ ((m ≡ err) ⊎ Has m sources))

error_body-Describes :
    (label err upstream : Text) (sources : List Text)
    → Describes label err sources (error_body label (format_error_chain err sources) upstream)
unfolding error_body format_error_chain
error_body-Describes label err upstream sources =
    let (dist, mem) = chain_from_lem (err ∷ []) sources (λ k. k, tt) in
    (
      chain_from (err ∷ []) sources,
      _,
      refl,
      dist,
      λ m. (
        λ k. elim ((mem m).0 k) [
          | inl a ↦ elim a [ inl e ↦ inl e | inr none_left ↦ absurd none_left ]
          | inr b ↦ inr b
        ],
        λ k. elim k [ inl e ↦ (mem m).1 (inl (inl e)) | inr b ↦ (mem m).1 (inr b) ],
      ),
    )

module _ {R : Type 0} (routes : List Route) (host : Text) (wants_upgrade : Bool)
    (upgrade : Text → Outcome R) (http : Text → Text → Outcome R) where
  -- What the upstream of a route answers.
  pub asked : Route → Outcome R
  asked r = if wants_upgrade then upgrade r.upstream else http r.upstream host

  handle_https-none :
      match_route host routes ≡ none
      → handle_https routes host wants_upgrade upgrade http
        ≡ own 404 (codes "dip-proxy: no route for '" ++ (host ++ codes "'\n"))
  unfolding handle_https
  handle_https-none h = rw (h, handle_https)

  handle_https-some :
      (r : Route)
      → match_route host routes ≡ some r
      → handle_https routes host wants_upgrade upgrade http
        ≡ reply_to
            (if wants_upgrade then codes "upgrade error" else codes "upstream error")
            r.upstream
            (asked r)
  unfolding handle_https asked
  handle_https-some r h = ground arith

  reply_to-forwarded :
      (label upstream : Text) (o : Outcome R) (x : R)
      → reply_to label upstream o ≡ forwarded x
      → o ≡ answered x
  unfolding reply_to
  reply_to-forwarded label upstream (answered r) x h = cc
  reply_to-forwarded label upstream (failed e s) x h = cc

  -- A response reaches the client only from the upstream of a route of the table that names the
  -- host or is a wildcard for it, and it is what that upstream answered.
  pub handle_https-forwarded :
      (x : R)
      → handle_https routes host wants_upgrade upgrade http ≡ forwarded x
      → (r : Route) × Has r routes × (IsExact host r ⊎ IsWildcard host r) × (asked r ≡ answered x)
  handle_https-forwarded x h = elim (Option-cases (match_route host routes)) [
    | inl e ↦ cc (handle_https-none e)
    | inr (r, e) ↦
        let (m, kind) = match_route_sound host routes r e in
        (
          r,
          m,
          elim kind [ inl k ↦ inl k | inr k ↦ inr k.1 ],
          reply_to-forwarded _ _ (asked r) x (sym (handle_https-some r e) ∙ h),
        )
  ]

  reply_to-own :
      (label upstream : Text) (o : Outcome R) (status : ℕ) (body : Text)
      → reply_to label upstream o ≡ own status body
      → (status ≡ 502)
        × ((err : Text) × (sources : List Text) × (o ≡ failed err sources)
            × Describes label err sources body)
  unfolding reply_to
  reply_to-own label upstream (answered r) status body h = cc
  reply_to-own label upstream (failed e s) status body h = (
    ground arith,
    (
      e,
      s,
      refl,
      subst (Describes label e s) (own_body h) (error_body-Describes label e upstream s),
    ),
  )
    where
      body_of : Reply R → Text
      body_of (own _ b) = b
      body_of (forwarded _) = []

      own_body :
          ◌≡◌ {A = Reply R}
            (own 502 (error_body label (format_error_chain e s) upstream))
            (own status body)
          → error_body label (format_error_chain e s) upstream ≡ body
      own_body eq = ap body_of eq

  -- The proxy's own replies have the status 404, and then no route of the table is for the host and
  -- the body names the host, or 502, and then the upstream of a route for the host failed, and the
  -- body says whether an upgrade or a plain request did and has every text of the error and of its
  -- sources once.
  pub handle_https-own :
      (status : ℕ) (body : Text)
      → handle_https routes host wants_upgrade upgrade http ≡ own status body
      → ((status ≡ 404)
          × (body ≡ codes "dip-proxy: no route for '" ++ (host ++ codes "'\n"))
          × ((r : Route) → Has r routes → ¬ IsExact host r × ¬ IsWildcard host r))
        ⊎ ((status ≡ 502)
            × ((r : Route) × (err : Text) × (sources : List Text) × Has r routes
                × (IsExact host r ⊎ IsWildcard host r)
                × (asked r ≡ failed err sources)
                × Describes
                    (if wants_upgrade then codes "upgrade error" else codes "upstream error")
                    err
                    sources
                    body))
  handle_https-own status body h = elim (Option-cases (match_route host routes)) [
    | inl e ↦ inl (
      ground (arith, handle_https-none e),
      ground (arith, handle_https-none e),
      (match_route-none_iff host routes).0 e,
    )
    | inr (r, e) ↦
        let (m, kind) = match_route_sound host routes r e in
        let (is_502, (err, sources, o, b)) =
          reply_to-own _ _ (asked r) status body (sym (handle_https-some r e) ∙ h) in
        let for_host : IsExact host r ⊎ IsWildcard host r = elim kind [
          | inl k ↦ inl k
          | inr k ↦ inr k.1
        ] in
        inr (is_502, (r, err, sources, m, for_host, o, b))
  ]
