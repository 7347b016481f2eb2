-- ===== src/Apple/Order/Visiting.antt =====
-- What `visit_service` keeps of the services that are visited already.
use dip_rust.Compose.Services.{ServiceConfig}
use dip_rust.Apple.Order.{
  Config, Outcome, done, not_found, exhausted, ◌>>=◌, service_in, member, Visit, see, visit_known,
  visit_all, visit_found, visit_new, visit_service, visit_roots, start_order,
}
use dip_rust.Base.{
  subst, some_inj, ℕ, zero, suc, ◌<◌, ◌≡◌, refl, sym, ◌∙◌, ◌⊎◌, inl, inr, Bool, true, false, Option,
  none, some, List, [], ◌∷◌, arith, is_some, length, Has, Has-append_left, Has-append_right,
}
use dip_rust.Text.{Text, before}
use dip_rust.Apple.Order.Dependencies.{
  Depends, Ordered, start, IfDone, IfDone->>=, IfDone-weaken, Has-member, Inv, Under, Kept, Visited,
  Inv-see, Inv-push_service,
}
use dip_rust.Apple.Order.Ending.{Ends, wanted, IsThere, selected_services-wanted, Ends-visit_roots}

module _ (config : Config) (rank : Text → ℕ)
    (lower : (name d : Text) → Depends config name d → rank d < rank name) where
  -- What a call of `visit_service` promises.
  abbrev Promise : (Text → Visit → Outcome Visit) → Type 0
  Promise self =
      (gray : List Text) (name : Text) (st : Visit)
      → Inv config rank lower gray st
      → Under config rank lower name gray
      → IfDone (Visited config rank lower gray name st) (self name st)

  module _ (self : Text → Visit → Outcome Visit) (promise : Promise self) where
    -- The dependencies of a service are visited, as far as they are services.
    abbrev Visits : List Text → List Text → Visit → Visit → Type 0
    Visits gray names before after =
        Inv config rank lower gray after
        × Kept config rank lower before after
        × ((d : Text)
            → Has d names
            → is_some (service_in d config) ≡ true
            → Has d (Visit.order after))

    visit_known-Visited :
        (gray : List Text) (known : Bool) (name : Text) (st : Visit)
        → Inv config rank lower gray st
        → (known ≡ true → Under config rank lower name gray)
        → IfDone
            (λ after.
              Inv config rank lower gray after
              × Kept config rank lower st after
              × (known ≡ true → Has name (Visit.order after)))
            (visit_known config self known name st)
    unfolding visit_known
    visit_known-Visited gray true name st i under =
        IfDone-weaken (Visited config rank lower gray name st) _ (self name st)
          (λ after v. (v.0, v.1, λ _. v.2)) (promise gray name st i (under refl))
    visit_known-Visited gray false name st i under = (i, λ x h. h, λ e. absurd_true e)
      where
        absurd_true : {P : Type 0} → false ≡ true → P
        absurd_true e = cc

    visit_all-Visits :
        (gray names : List Text) (st : Visit)
        → Inv config rank lower gray st
        → ((d : Text)
            → Has d names
            → is_some (service_in d config) ≡ true
            → Under config rank lower d gray)
        → IfDone (Visits gray names st) (visit_all config self names st)
    unfolding visit_all
    visit_all-Visits gray [] st i under = (i, λ x h. h, λ d h. elim h [ ])
    visit_all-Visits gray (name ∷ names) st i under =
        IfDone->>=
          (λ next.
            Inv config rank lower gray next
            × Kept config rank lower st next
            × (is_some (service_in name config) ≡ true → Has name (Visit.order next)))
          (Visits gray (name ∷ names) st)
          (visit_known config self (is_some (service_in name config)) name st) _
          (visit_known-Visited gray (is_some (service_in name config)) name st i
            (under name (inl refl)))
          (λ next v.
            IfDone-weaken (Visits gray names next) (Visits gray (name ∷ names) st)
              (visit_all config self names next)
              (λ after w. (w.0, λ x h. w.1 x (v.1 x h), both next v.2 after w.1 w.2))
              (visit_all-Visits gray names next v.0 (λ d h. under d (inr h))))
      where
        both :
            (next : Visit)
            → (is_some (service_in name config) ≡ true → Has name (Visit.order next))
            → (after : Visit) → Kept config rank lower next after
            → ((d : Text)
                → Has d names
                → is_some (service_in d config) ≡ true
                → Has d (Visit.order after))
            → (d : Text) → Has d (name ∷ names)
            → is_some (service_in d config) ≡ true
            → Has d (Visit.order after)
        both next first after kept later d (inl e) k =
            subst (λ y. Has y (Visit.order after)) (sym e)
              (kept name (first (subst (λ y. is_some (service_in y config) ≡ true) e k)))
        both next first after kept later d (inr h) k = later d h k

    visit_found-Visited :
        (gray : List Text) (o : Option ServiceConfig) (name : Text) (st : Visit)
        → service_in name config ≡ o
        → member name (Visit.seen st) ≡ false
        → Inv config rank lower gray st
        → Under config rank lower name gray
        → IfDone
            (Visited config rank lower gray name st)
            (visit_found config self o name (see name st))
    unfolding visit_found
    visit_found-Visited gray none name st e m i under = tt
    visit_found-Visited gray (some service) name st e m i under =
        IfDone->>= (Visits (name ∷ gray) (ServiceConfig.depends_on service) (see name st))
          (Visited config rank lower gray name st)
          (visit_all config self (ServiceConfig.depends_on service) (see name st)) _
          (visit_all-Visits (name ∷ gray) (ServiceConfig.depends_on service) (see name st)
            (Inv-see config rank lower gray name st m i) below)
          (λ after v. (
            Inv-push_service config rank lower gray name after under (reached after v.2) v.0,
            λ x h. Has-append_left x (Visit.order after) (name ∷ []) (v.1 x h),
            Has-append_right name (Visit.order after) (name ∷ []) (inl refl),
          ))
      where
        below :
            (d : Text)
            → Has d (ServiceConfig.depends_on service)
            → is_some (service_in d config) ≡ true
            → Under config rank lower d (name ∷ gray)
        below d h k y (inl t) =
            subst (λ z. rank d < rank z) (sym t) (lower name d (service, e, h, k))
        below d h k y (inr g) = lt_trans (lower name d (service, e, h, k)) (under y g)
          where
            lt_trans : {a b c : ℕ} → a < b → b < c → a < c
            lt_trans p q = omega arith

        reached :
            (after : Visit)
            → ((d : Text)
                → Has d (ServiceConfig.depends_on service)
                → is_some (service_in d config) ≡ true
                → Has d (Visit.order after))
            → (d : Text) → Depends config name d
            → Has d (Visit.order after)
        reached after v d (other, f, h, k) =
            v d (subst (λ s. Has d (ServiceConfig.depends_on s)) (some_inj (sym f ∙ e)) h) k

    visit_new-Visited :
        (gray : List Text) (b : Bool) (name : Text) (st : Visit)
        → member name (Visit.seen st) ≡ b
        → Inv config rank lower gray st
        → Under config rank lower name gray
        → IfDone (Visited config rank lower gray name st) (visit_new config self b name st)
    unfolding visit_new
    visit_new-Visited gray true name st m i under =
        (i, λ x h. h, present (Inv.covered i name (Has-member name (Visit.seen st) m)))
      where
        no_self : (n : ℕ) → n < n → ⊥
        no_self n h = omega arith

        present : Has name (Visit.order st) ⊎ Has name gray → Has name (Visit.order st)
        present (inl h) = h
        present (inr g) = elim (no_self (rank name) (under name g)) [ ]
    visit_new-Visited gray false name st m i under =
        visit_found-Visited gray (service_in name config) name st refl m i under

  visit_service-Visited : (n : ℕ) → Promise (visit_service config n)
  unfolding visit_service
  visit_service-Visited zero gray name st i under = tt
  visit_service-Visited (suc n) gray name st i under =
      visit_new-Visited (visit_service config n) (visit_service-Visited n) gray
        (member name (Visit.seen st)) name st refl i under

  visit_roots-Visits :
      (n : ℕ) (names : List Text) (st : Visit)
      → Inv config rank lower [] st
      → IfDone
          (λ after.
            Inv config rank lower [] after
            × Kept config rank lower st after
            × ((x : Text) → Has x names → Has x (Visit.order after)))
          (visit_roots config n names st)
  unfolding visit_roots
  visit_roots-Visits n [] st i = (i, λ x h. h, λ x h. elim h [ ])
  visit_roots-Visits n (name ∷ names) st i =
      IfDone->>= (Visited config rank lower [] name st)
        (λ after.
          Inv config rank lower [] after
          × Kept config rank lower st after
          × ((x : Text) → Has x (name ∷ names) → Has x (Visit.order after)))
        (visit_service config n name st) _
        (visit_service-Visited n [] name st i (λ y h. elim h [ ]))
        (λ next v.
          IfDone-weaken
            (λ after.
              Inv config rank lower [] after
              × Kept config rank lower next after
              × ((x : Text) → Has x names → Has x (Visit.order after)))
            _ (visit_roots config n names next)
            (λ after w. (w.0, λ x h. w.1 x (v.1 x h), both next v.2 after w.1 w.2))
            (visit_roots-Visits n names next v.0))
    where
      both :
          (next : Visit)
          → Has name (Visit.order next)
          → (after : Visit) → Kept config rank lower next after
          → ((x : Text) → Has x names → Has x (Visit.order after))
          → (x : Text) → Has x (name ∷ names)
          → Has x (Visit.order after)
      both next first after kept later x (inl e) =
          subst (λ y. Has y (Visit.order after)) (sym e) (kept name first)
      both next first after kept later x (inr h) = later x h

-- The start has a value: an order, in which the services that were asked for stand.
abbrev pub Starts : Config → Option Text → Outcome (List Text) → Type 0
Starts config service (done order) =
    Ordered config order × ((x : Text) → Has x (wanted config service) → Has x order)
Starts config service (not_found name) = ⊥
Starts config service exhausted = ⊥

module _ (config : Config) (service : Option Text) where
  abbrev Reached : Visit → Type 0
  Reached st =
      Ordered config (Visit.order st)
      × ((x : Text) → Has x (wanted config service) → Has x (Visit.order st))

  Starts-both :
      (m : Outcome Visit)
      → Ends (λ st. Unit {0}) m
      → IfDone Reached m
      → Starts config service (m >>= λ st. done (Visit.order st))
  Starts-both (done st) e h = h
  Starts-both (not_found name) e h = e
  Starts-both exhausted e h = e

-- If the dependencies lead in no circle, and the service that is asked for, if one is, is in the
-- file, then there is an order: the services that are asked for, one or all, stand in it, no service
-- stands twice, and each stands behind those of its dependencies that are in the file.
pub start_order-Ordered :
    (config : Config) (rank : Text → ℕ)
    → ((name d : Text) → Depends config name d → rank d < rank name)
    → (service : Option Text) → IsThere config service
    → Starts config service (start_order config service)
unfolding start_order
start_order-Ordered config rank lower service h = rw (selected_services-wanted config service h) (
    Starts-both config service
      (visit_roots config (suc (length config)) (wanted config service) nothing_seen)
      (Ends-visit_roots config service h)
      (IfDone-weaken _ (Reached config service) _ (λ st v. (Inv.ordered v.0, v.2))
        (visit_roots-Visits config rank lower (suc (length config)) (wanted config service)
          nothing_seen empty)))
  where
    nothing_seen : Visit
    nothing_seen = record { seen = []; order = [] }

    empty : Inv config rank lower [] nothing_seen
    empty = record {
      ordered = start;
      covered = λ x h. elim h [ ];
      order_seen = λ x h. elim h [ ];
      gray_seen = λ x h. elim h [ ];
      gray_out = λ x h k. h;
    }
