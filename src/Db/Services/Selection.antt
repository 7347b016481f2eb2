-- ===== src/Db/Services/Selection.antt =====
-- The two services that `run_migrate` of src/db/migrate.rs picks by name.
use dip_rust.Base.{
  is_nil, subst, some_inj, ltb→lt, ltb-false→le, ℕ, zero, suc, ◌-◌, ◌<◌, ◌≡◌, refl, sym, ap, ◌∙◌,
  ◌≢◌, inl, inr, Bool, true, false, none, some, List, [], ◌∷◌, ◌++◌, arith, ltb, ◌==◌,
  if◌then◌else◌, ==_iff, Bool-cases, Option-cases, length, get_elem?, take, find, get_elem?-lt,
}
use dip_rust.Db.Services.{
  DbService, chosen, refused, is_named, no_services, not_found, position, set_elem, swap_remove,
  remove_both, select_services,
}
use dip_rust.Text.Equality.{text_eq_iff}
use dip_rust.Text.{Text, codes, text_eq}

module _ {A : Type 0} where
  position-none : (test : A → Bool) (xs : List A) → find test xs ≡ none → position test xs ≡ none
  unfolding position
  position-none test [] h = refl
  position-none test (x ∷ xs) h = elim (Bool-cases (test x)) [
    | inl t ↦ cc (rw t at h)
    | inr f ↦ rw (f, position-none test xs (rw f at h))
  ]

  position-some :
      (test : A → Bool) (xs : List A) (a : A)
      → find test xs ≡ some a
      → (i : ℕ) × (position test xs ≡ some i) × (get_elem? xs i ≡ some a) × (test a ≡ true)
  unfolding position
  position-some test [] a h = cc
  position-some test (x ∷ xs) a h = elim (Bool-cases (test x)) [
    | inl t ↦ (0, rw t, rw t at h, subst (λ y. test y ≡ true) (some_inj (rw t at h)) t)
    | inr f ↦ let (i, p, g, t) = position-some test xs a (rw f at h) in (suc i, rw (f, p), g, t)
  ]

  get_elem?-some_lt : (xs : List A) (i : ℕ) (a : A) → get_elem? xs i ≡ some a → i < length xs
  get_elem?-some_lt [] i a h = cc
  get_elem?-some_lt (x ∷ xs) zero a h = omega arith
  get_elem?-some_lt (x ∷ xs) (suc i) a h = omega (arith, get_elem?-some_lt xs i a h)

  get_elem?-take : (n i : ℕ) (xs : List A) → i < n → get_elem? (take n xs) i ≡ get_elem? xs i
  get_elem?-take zero i xs h = absurd (omega arith)
  get_elem?-take (suc n) i [] h = refl
  get_elem?-take (suc n) zero (x ∷ xs) h = refl
  get_elem?-take (suc n) (suc i) (x ∷ xs) h = get_elem?-take n i xs (omega arith)

  get_elem?-set_elem :
      (i j : ℕ) (a : A) (xs : List A) → j < i → get_elem? (set_elem i a xs) j ≡ get_elem? xs j
  unfolding set_elem
  get_elem?-set_elem i j a [] h = refl
  get_elem?-set_elem zero j a (x ∷ xs) h = absurd (omega arith)
  get_elem?-set_elem (suc i) zero a (x ∷ xs) h = refl
  get_elem?-set_elem (suc i) (suc j) a (x ∷ xs) h = get_elem?-set_elem i j a xs (omega arith)

  -- The removed element, and the elements below it where they were.
  swap_remove_lem :
      (xs : List A) (i : ℕ) (a : A)
      → get_elem? xs i ≡ some a
      → (rest : List A) × (swap_remove i xs ≡ some (a, rest))
        × ((j : ℕ) → j < i → get_elem? rest j ≡ get_elem? xs j)
  unfolding swap_remove
  swap_remove_lem xs i a h =
      let below = get_elem?-some_lt xs i a h in
      let (last, l) = get_elem?-lt xs (length xs - 1) (omega (arith, below)) in
      (
        take (length xs - 1) (set_elem i last xs),
        rw (h, l),
        λ j k.
            get_elem?-take (length xs - 1) j (set_elem i last xs) (omega (arith, below, k))
            ∙ get_elem?-set_elem i j last xs k,
      )

not_equal : (i j : ℕ) → (i == j) ≡ false → i ≢ j
not_equal i j h e = cc (h, (==_iff i j).1 e)

remove_both_lem :
    (services : List DbService) (i j : ℕ) (f t : DbService)
    → get_elem? services i ≡ some f
    → get_elem? services j ≡ some t
    → (i == j) ≡ false
    → remove_both services i j ≡ chosen f t
unfolding remove_both
remove_both_lem services i j f t hf ht differ = elim (Bool-cases (ltb j i)) [
  | inl lower ↦
      let (rest, removed, kept) = swap_remove_lem services i f hf in
      let (left, removed_too, _) = swap_remove_lem rest j t (kept j (ltb→lt j i lower) ∙ ht) in
      rw (lower, removed, removed_too)
  | inr upper ↦
      let above : i < j = omega (arith, ltb-false→le j i upper, not_equal i j differ) in
      let (rest, removed, kept) = swap_remove_lem services j t ht in
      let (left, removed_too, _) = swap_remove_lem rest i f (kept i above ∙ hf) in
      rw (upper, removed, removed_too)
]

same_name :
    (from to : Text) (services : List DbService) (i j : ℕ) (f t : DbService)
    → get_elem? services i ≡ some f
    → get_elem? services j ≡ some t
    → is_named from f ≡ true
    → is_named to t ≡ true
    → (i == j) ≡ true
    → text_eq from to ≡ true
same_name from to services i j f t g h named named_too same =
    let k : f ≡ t = some_inj (sym g ∙ ap (get_elem? services) ((==_iff i j).0 same) ∙ h) in
    (text_eq_iff from to).1 (
      sym ((text_eq_iff f.service_name from).0 named)
      ∙ ap (λ (s : DbService). s.service_name) k
      ∙ (text_eq_iff t.service_name to).0 named_too)

other_name :
    (from to : Text) (services : List DbService) (i j : ℕ)
    → position (is_named from) services ≡ some i
    → position (is_named to) services ≡ some j
    → (i == j) ≡ false
    → text_eq from to ≡ false
other_name from to services i j p q differ = elim (Bool-cases (text_eq from to)) [
  | inr e ↦ e
  | inl e ↦ absurd (
      not_equal i j differ (
        some_inj
          (sym p ∙ ap (λ name. position (is_named name) services) ((text_eq_iff from to).0 e) ∙ q)))
]

-- Two services are chosen when both names are a service's and they differ: the first service of
-- each name, in their roles. Otherwise there is a refusal, and a panic in no case.
pub select_services_lem :
    (from to : Text) (services : List DbService)
    → select_services from to services ≡ (
        if is_nil services then refused no_services else elim (find (is_named from) services) [
          | none ↦
              refused
                (not_found from services ++ codes "\n  Run `dip db list` to see all services.")
          | some f ↦ elim (find (is_named to) services) [
            | none ↦ refused (not_found to services)
            | some t ↦
                if text_eq from to
                then refused (codes "--from and --to must be different services")
                else chosen f t
          ]
        ])
unfolding select_services
select_services_lem from to services = elim (Option-cases (find (is_named from) services)) [
  | inl e ↦ rw (e, position-none (is_named from) services e)
  | inr (f, e) ↦
      let (i, p, g, named) = position-some (is_named from) services f e in
      rw (e, p)
        (elim (Option-cases (find (is_named to) services)) [
          | inl d ↦ rw (d, position-none (is_named to) services d)
          | inr (t, d) ↦
              let (j, q, h, named_too) = position-some (is_named to) services t d in
              rw (d, q)
                (elim (Bool-cases (i == j)) [
                  | inl same ↦
                      rw (same, same_name from to services i j f t g h named named_too same)
                  | inr differ ↦ rw (
                    differ,
                    other_name from to services i j p q differ,
                    remove_both_lem services i j f t g h differ,
                  )
                ])
        ])
]
