-- ===== src/Proxy/Router/Choice.antt =====
-- Which route `match_route` chooses.

use dip_rust.Base.{
  subst, some_inj, ltb→lt, ltb-false→le, ℕ, ◌≤◌, ◌≡◌, refl, sym, ◌∙◌, ◌↔◌, ◌⊎◌, inl, inr, Bool,
  true, false, none, some, List, [], ◌∷◌, arith, ltb, if◌then◌else◌, Bool-cases, Option-cases,
  filter, find, Has,
}
use dip_rust.Proxy.Config.{Route}
use dip_rust.Proxy.Router.Matching.{
  IsExact, IsWildcard, is_exact-IsExact, IsExact-is_exact, is_wildcard-IsWildcard,
  IsWildcard-is_wildcard,
}
use dip_rust.Proxy.Router.{is_exact, is_wildcard, max_from, max_by_key, match_route}
use dip_rust.Text.{Text, byte_len}

module _ (test : Route → Bool) where
  find-some : (rs : List Route) {r : Route} → find test rs ≡ some r → Has r rs × (test r ≡ true)
  find-some [] h = cc
  find-some (x ∷ xs) {r} h = elim (Bool-cases (test x)) [
    | inl t ↦ (inl (ground arith), ground arith)
    | inr f ↦ let (m, t) = find-some xs {r = r} (ground arith) in (inr m, t)
  ]

  find-none : (rs : List Route) (r : Route) → find test rs ≡ none → Has r rs → test r ≡ false
  find-none [] r h m = elim m [ ]
  find-none (x ∷ xs) r h (inl e) = ground arith
  find-none (x ∷ xs) r h (inr m) = find-none xs r (ground arith) m

  Has-filter : (rs : List Route) (r : Route) → Has r (filter test rs) ↔ (Has r rs × (test r ≡ true))
  Has-filter [] r = (λ m. absurd m, λ m. m.0)
  Has-filter (x ∷ xs) r = elim (Bool-cases (test x)) [
    | inl t ↦ rw t (
      λ m. elim m [
        | inl e ↦ (inl e, rw e t)
        | inr k ↦ (inr ((Has-filter xs r).0 k).0, ((Has-filter xs r).0 k).1)
      ],
      λ m. elim m.0 [ inl e ↦ inl e | inr k ↦ inr ((Has-filter xs r).1 (k, m.1)) ],
    )
    | inr f ↦ rw f (
      λ m. (inr ((Has-filter xs r).0 m).0, ((Has-filter xs r).0 m).1),
      λ m. elim m.0 [ inl e ↦ cc (e, f, m.1) | inr k ↦ (Has-filter xs r).1 (k, m.1) ],
    )
  ]

module _ (key : Route → ℕ) where
  max_from-cons :
      (best x : Route) (xs : List Route)
      → max_from key best (x ∷ xs) ≡ max_from key (if ltb (key x) (key best) then best else x) xs
  unfolding max_from
  max_from-cons best x xs = refl

  max_from-nil : (best : Route) → max_from key best [] ≡ best
  unfolding max_from
  max_from-nil best = refl

  -- `b` stands in the list, and nothing there is greater.
  IsGreatest : Route → List Route → Type 0
  IsGreatest b rs = Has b rs × ((r : Route) → Has r rs → key r ≤ key b)

  keep :
      (best x : Route) (xs : List Route) (b : Route)
      → ltb (key x) (key best) ≡ true
      → IsGreatest b (best ∷ xs)
      → IsGreatest b (best ∷ x ∷ xs)
  unfolding IsGreatest
  keep best x xs b lt (m, ge) = (
    elim m [ inl e ↦ inl e | inr k ↦ inr (inr k) ],
    λ r k. elim k [
      | inl e ↦ ge r (inl e)
      | inr j ↦ elim j [
        | inl e ↦ rw e (omega (arith, ge best (inl refl), ltb→lt _ _ lt))
        | inr i ↦ ge r (inr i)
      ]
    ],
  )

  pass :
      (best x : Route) (xs : List Route) (b : Route)
      → ltb (key x) (key best) ≡ false
      → IsGreatest b (x ∷ xs)
      → IsGreatest b (best ∷ x ∷ xs)
  unfolding IsGreatest
  pass best x xs b le (m, ge) = (
    inr m,
    λ r k. elim k [
      | inl e ↦ rw e (omega (arith, ge x (inl refl), ltb-false→le _ _ le))
      | inr j ↦ ge r j
    ],
  )

  max_from-IsGreatest :
      (best : Route) (rs : List Route) → IsGreatest (max_from key best rs) (best ∷ rs)
  unfolding IsGreatest
  max_from-IsGreatest best [] =
      rw max_from-nil (inl refl, λ r m. elim m [ inl e ↦ rw e (omega arith) | inr k ↦ absurd k ])
  max_from-IsGreatest best (x ∷ xs) = elim (Bool-cases (ltb (key x) (key best))) [
    | inl lt ↦
        let e : max_from key best (x ∷ xs) ≡ max_from key best xs = rw (max_from-cons, lt) in
        subst (λ b. IsGreatest b (best ∷ x ∷ xs)) (sym e)
          (keep best x xs _ lt (max_from-IsGreatest best xs))
    | inr le ↦
        let e : max_from key best (x ∷ xs) ≡ max_from key x xs = rw (max_from-cons, le) in
        subst (λ b. IsGreatest b (best ∷ x ∷ xs)) (sym e)
          (pass best x xs _ le (max_from-IsGreatest x xs))
  ]

  max_by_key-IsGreatest :
      (rs : List Route) {r : Route} → max_by_key key rs ≡ some r → IsGreatest r rs
  unfolding max_by_key
  max_by_key-IsGreatest [] h = cc
  max_by_key-IsGreatest (x ∷ xs) {r} h =
      let e : max_from key x xs ≡ r = some_inj h in rw e at (max_from-IsGreatest x xs)

  max_by_key-none : (rs : List Route) → max_by_key key rs ≡ none → rs ≡ []
  unfolding max_by_key
  max_by_key-none [] h = refl
  max_by_key-none (x ∷ xs) h = cc

match_route-some :
    (host : Text) (routes : List Route) {c : Route}
    → find (is_exact host) routes ≡ some c
    → match_route host routes ≡ some c
unfolding match_route
match_route-some host routes h = rw (h, match_route)

match_route-none :
    (host : Text) (routes : List Route)
    → find (is_exact host) routes ≡ none
    → match_route host routes
      ≡ max_by_key (λ r. byte_len r.domain) (filter (is_wildcard host) routes)
unfolding match_route
match_route-none host routes h = rw (h, match_route)

-- An exact route, if there is one, is chosen: whichever route names the host without a `*`, the
-- chosen route is one of the table's that does so too.
pub match_route-IsExact :
    (host : Text) (routes : List Route) (r : Route)
    → Has r routes
    → IsExact host r
    → (c : Route) × (match_route host routes ≡ some c) × Has c routes × IsExact host c
match_route-IsExact host routes r m e = elim (Option-cases (find (is_exact host) routes)) [
  | inl nothing ↦ cc (find-none (is_exact host) routes r nothing m, IsExact-is_exact host r e)
  | inr (c, found) ↦
      let (k, t) = find-some (is_exact host) routes found in
      (c, match_route-some host routes found, k, is_exact-IsExact host c t)
]

-- A chosen route stands in the table, and either names the host exactly, or no route does, it is a
-- wildcard for the host, and no wildcard for the host has a longer pattern.
pub match_route_sound :
    (host : Text) (routes : List Route) (c : Route)
    → match_route host routes ≡ some c
    → Has c routes
      × (IsExact host c
          ⊎ (((r : Route) → Has r routes → ¬ IsExact host r)
              × IsWildcard host c
              × ((r : Route)
                  → Has r routes
                  → IsWildcard host r
                  → byte_len r.domain ≤ byte_len c.domain)))
unfolding IsGreatest
match_route_sound host routes c h = elim (Option-cases (find (is_exact host) routes)) [
  | inr (d, found) ↦
      let e : d ≡ c = some_inj (sym (match_route-some host routes found) ∙ h) in
      let (k, t) = find-some (is_exact host) routes found in
      (rw e at k, inl (rw e at (is_exact-IsExact host d t)))
  | inl nothing ↦
      let (k, longest) =
        max_by_key-IsGreatest (λ r. byte_len r.domain) _
          (sym (match_route-none host routes nothing) ∙ h) in
      let (m, t) = (Has-filter (is_wildcard host) routes c).0 k in
      (
        m,
        inr (
          λ r mr e. cc (find-none (is_exact host) routes r nothing mr, IsExact-is_exact host r e),
          is_wildcard-IsWildcard host c t,
          λ r mr w.
              longest r
                ((Has-filter (is_wildcard host) routes r).1 (mr, IsWildcard-is_wildcard host r w)),
        ),
      )
]

filter-eq_nil :
    (test : Route → Bool) (rs : List Route) (r : Route)
    → filter test rs ≡ []
    → Has r rs
    → test r ≡ false
filter-eq_nil test rs r e m = elim (Bool-cases (test r)) [
  | inr f ↦ f
  | inl t ↦ absurd (rw e at ((Has-filter test rs r).1 (m, t)))
]

nil_of_no_elements : (rs : List Route) → ((r : Route) → ¬ Has r rs) → rs ≡ []
nil_of_no_elements [] h = refl
nil_of_no_elements (x ∷ xs) h = absurd (h x (inl refl))

-- There is no route exactly when no route of the table names the host or is a wildcard for it.
pub match_route-none_iff :
    (host : Text) (routes : List Route)
    → (match_route host routes ≡ none)
      ↔ ((r : Route) → Has r routes → ¬ IsExact host r × ¬ IsWildcard host r)
match_route-none_iff host routes = elim (Option-cases (find (is_exact host) routes)) [
  | inr (c, found) ↦
      let (m, t) = find-some (is_exact host) routes found in
      (
        λ h. cc (h, match_route-some host routes found),
        λ h. absurd ((h c m).0 (is_exact-IsExact host c t)),
      )
  | inl nothing ↦ (
    λ h r m.
        let none_left = max_by_key-none _ _ (sym (match_route-none host routes nothing) ∙ h) in
        (
          λ e. cc (find-none (is_exact host) routes r nothing m, IsExact-is_exact host r e),
          λ w. cc (filter-eq_nil _ routes r none_left m, IsWildcard-is_wildcard host r w),
        ),
    λ h.
        let empty = nil_of_no_elements (filter (is_wildcard host) routes) (λ r k.
          let (m, t) = (Has-filter (is_wildcard host) routes r).0 k in
          (h r m).1 (is_wildcard-IsWildcard host r t)) in
        match_route-none host routes nothing ∙ rw empty (unfold max_by_key in refl),
  )
]
