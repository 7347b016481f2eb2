-- ===== src/Apple/Order/Ending.antt =====
-- The fuel of `visit_service`, with circles of dependencies too.
use dip_rust.Compose.Services.{ServiceConfig}
use dip_rust.Text.Equality.{text_eq_iff, text_eq_self}
use dip_rust.Apple.Order.{
  Config, Outcome, done, not_found, exhausted, ◌>>=◌, service_in, member, Visit, see, visit_known,
  visit_all, visit_found, visit_new, visit_service, visit_roots, names_of, selected_services,
}
use dip_rust.Base.{
  subst, ℕ, zero, suc, ◌≤◌, ◌<◌, ◌≡◌, refl, ap, inl, inr, Bool, true, false, ◌||◌, Option, none,
  some, List, [], ◌∷◌, arith, if◌then◌else◌, Bool-cases, is_some, length, All,
}
use dip_rust.Text.{Text, text_eq}

-- The run has a value, with the property.
abbrev pub Ends : {A : Type 0} → (A → Type 0) → Outcome A → Type 0
Ends P (done a) = P a
Ends P (not_found name) = ⊥
Ends P exhausted = ⊥

module _ {A B : Type 0} (P : A → Type 0) (Q : B → Type 0) where
  pub Ends->>= :
      (m : Outcome A) (f : A → Outcome B)
      → Ends P m
      → ((a : A) → P a → Ends Q (f a))
      → Ends Q (m >>= f)
  Ends->>= (done a) f h k = k a h
  Ends->>= (not_found name) f h k = h
  Ends->>= exhausted f h k = h

-- The services that are not seen yet.
abbrev unseen : Config → List Text → ℕ
unseen [] seen = 0
unseen ((name, service) ∷ config) seen =
    let rest = unseen config seen in if member name seen then rest else suc rest

unseen_all : (config : Config) → unseen config [] ≡ length config
unfolding member
unseen_all [] = refl
unseen_all ((name, service) ∷ config) = ap suc (unseen_all config)

-- A service that is counted with one more name seen, and without it.
counted : (a b : Bool) (u v : ℕ) → u ≤ v → (if a || b then u else suc u) ≤ (if b then v else suc v)
counted true true u v h = h
counted true false u v h = omega arith
counted false true u v h = h
counted false false u v h = omega arith

counted_less :
    (a b : Bool) (u v : ℕ) → u < v → (if a || b then u else suc u) < (if b then v else suc v)
counted_less true true u v h = h
counted_less true false u v h = omega arith
counted_less false true u v h = h
counted_less false false u v h = omega arith

unseen-see :
    (config : Config) (x : Text) (seen : List Text) → unseen config (x ∷ seen) ≤ unseen config seen
unfolding member
unseen-see [] x seen = omega arith
unseen-see ((name, service) ∷ config) x seen =
    counted (text_eq name x) (member name seen) _ _ (unseen-see config x seen)

unseen_less :
    (config : Config) (x : Text) (service : ServiceConfig) (seen : List Text)
    → service_in x config ≡ some service
    → member x seen ≡ false
    → unseen config (x ∷ seen) < unseen config seen
unfolding member service_in
unseen_less [] x service seen e h = cc
unseen_less ((name, s) ∷ config) x service seen e h = elim (Bool-cases (text_eq x name)) [
  | inl t ↦
      let same = (text_eq_iff x name).0 t in
      rw
        (
          subst (λ n. text_eq n x ≡ true) same (text_eq_self x),
          subst (λ n. member n seen ≡ false) same h,
        )
        (omega (arith, unseen-see config x seen))
  | inr t ↦ counted_less (text_eq name x) (member name seen) _ _ (
      unseen_less config x service seen
        (subst (λ b. (if b then some s else service_in x config) ≡ some service) t e) h)
]

abbrev pub Known : Config → Text → Type 0
Known config name = is_some (service_in name config) ≡ true

module _ (config : Config) where
  -- No more is unseen than before.
  abbrev Fewer : ℕ → Visit → Type 0
  Fewer n st = unseen config (Visit.seen st) ≤ n

  Fewer-weaken : (n k : ℕ) → n ≤ k → (m : Outcome Visit) → Ends (Fewer n) m → Ends (Fewer k) m
  Fewer-weaken n k le (done st) h = omega arith
  Fewer-weaken n k le (not_found name) h = h
  Fewer-weaken n k le exhausted h = h

  module _ (n : ℕ) (self : Text → Visit → Outcome Visit)
      (hs : (name : Text) (st : Visit)
        → Known config name
        → unseen config (Visit.seen st) < n
        → Ends (Fewer (unseen config (Visit.seen st))) (self name st)) where
    Fewer-visit_known :
        (known : Bool) (name : Text) (st : Visit)
        → is_some (service_in name config) ≡ known
        → unseen config (Visit.seen st) < n
        → Ends (Fewer (unseen config (Visit.seen st))) (visit_known config self known name st)
    unfolding visit_known
    Fewer-visit_known true name st k h = hs name st k h
    Fewer-visit_known false name st k h = omega arith

    Fewer-visit_all :
        (names : List Text) (st : Visit)
        → unseen config (Visit.seen st) < n
        → Ends (Fewer (unseen config (Visit.seen st))) (visit_all config self names st)
    unfolding visit_all
    Fewer-visit_all [] st h = omega arith
    Fewer-visit_all (name ∷ names) st h =
        let P = Fewer (unseen config (Visit.seen st)) in
        Ends->>= P P (visit_known config self (is_some (service_in name config)) name st) _
          (Fewer-visit_known (is_some (service_in name config)) name st refl h)
          (λ next b.
            Fewer-weaken (unseen config (Visit.seen next)) _ b _
              (Fewer-visit_all names next (omega arith)))

    Fewer-visit_found :
        (o : Option ServiceConfig) (name : Text) (st : Visit)
        → service_in name config ≡ o
        → Known config name
        → member name (Visit.seen st) ≡ false
        → unseen config (Visit.seen st) < suc n
        → Ends
            (Fewer (unseen config (Visit.seen st)))
            (visit_found config self o name (see name st))
    unfolding visit_found
    Fewer-visit_found none name st e k m h = unknown (subst (λ o. is_some o ≡ true) e k)
      where
        unknown : false ≡ true → ⊥
        unknown e = cc
    Fewer-visit_found (some service) name st e k m h =
        let less = unseen_less config name service (Visit.seen st) e m in
        Ends->>= (Fewer (unseen config (name ∷ Visit.seen st)))
          (Fewer (unseen config (Visit.seen st)))
          (visit_all config self (ServiceConfig.depends_on service) (see name st)) _
          (Fewer-visit_all (ServiceConfig.depends_on service) (see name st) (omega arith))
          (λ next b. omega arith)

    Fewer-visit_new :
        (b : Bool) (name : Text) (st : Visit)
        → member name (Visit.seen st) ≡ b
        → Known config name
        → unseen config (Visit.seen st) < suc n
        → Ends (Fewer (unseen config (Visit.seen st))) (visit_new config self b name st)
    unfolding visit_new
    Fewer-visit_new true name st m k h = omega arith
    Fewer-visit_new false name st m k h =
        Fewer-visit_found (service_in name config) name st refl k m h

  Fewer-visit_service :
      (n : ℕ) (name : Text) (st : Visit)
      → Known config name
      → unseen config (Visit.seen st) < n
      → Ends (Fewer (unseen config (Visit.seen st))) (visit_service config n name st)
  unfolding visit_service
  Fewer-visit_service zero name st k h = below_zero (unseen config (Visit.seen st)) h
    where
      below_zero : (k : ℕ) → k < 0 → ⊥
      below_zero k h = omega arith
  Fewer-visit_service (suc n) name st k h =
      Fewer-visit_new n (visit_service config n) (Fewer-visit_service n)
        (member name (Visit.seen st)) name st refl k h

  Fewer-visit_roots :
      (n : ℕ) (names : List Text) (st : Visit)
      → All (Known config) names
      → unseen config (Visit.seen st) < n
      → Ends (Fewer (unseen config (Visit.seen st))) (visit_roots config n names st)
  unfolding visit_roots
  Fewer-visit_roots n [] st k h = omega arith
  Fewer-visit_roots n (name ∷ names) st (k, ks) h =
      let P = Fewer (unseen config (Visit.seen st)) in
      Ends->>= P P (visit_service config n name st) _ (Fewer-visit_service n name st k h) (λ next b.
        Fewer-weaken (unseen config (Visit.seen next)) _ b _
          (Fewer-visit_roots n names next ks (omega arith)))

-- The services of a file are there.
Known-tail :
    (config : Config) (n : Text) (s : ServiceConfig) (names : List Text)
    → All (Known config) names
    → All (Known ((n, s) ∷ config)) names
unfolding service_in
Known-tail config n s [] h = tt
Known-tail config n s (name ∷ names) (k, h) =
    (either (text_eq name n) (service_in name config) k, Known-tail config n s names h)
  where
    either :
        (b : Bool) (o : Option ServiceConfig)
        → is_some o ≡ true
        → is_some (if b then some s else o) ≡ true
    either true o h = refl
    either false o h = h

names_of-Known : (config : Config) → All (Known config) (names_of config)
unfolding service_in
names_of-Known [] = tt
names_of-Known ((name, service) ∷ config) = (
  rw (text_eq_self name) refl,
  Known-tail config name service (names_of config) (names_of-Known config),
)

-- The services that are asked for: one, or all.
abbrev pub wanted : Config → Option Text → List Text
wanted config none = names_of config
wanted config (some name) = name ∷ []

abbrev pub IsThere : Config → Option Text → Type 0
IsThere config none = Unit
IsThere config (some name) = Known config name

pub selected_services-wanted :
    (config : Config) (service : Option Text)
    → IsThere config service
    → selected_services config service ≡ done (wanted config service)
unfolding selected_services
selected_services-wanted config none h = refl
selected_services-wanted config (some name) h = rw h refl

wanted-Known :
    (config : Config) (service : Option Text)
    → IsThere config service
    → All (Known config) (wanted config service)
wanted-Known config none h = names_of-Known config
wanted-Known config (some name) h = (h, tt)

-- Whatever the services and their dependencies, circles included, the visit ends within its fuel.
pub Ends-visit_roots :
    (config : Config) (service : Option Text)
    → IsThere config service
    → Ends
        (λ st. Unit {0})
        (visit_roots config
          (suc (length config))
          (wanted config service)
          (record { seen = []; order = [] }))
Ends-visit_roots config service h =
    ended
      (visit_roots config (suc (length config)) (wanted config service)
        (record { seen = []; order = [] }))
      (Fewer-visit_roots config (suc (length config)) (wanted config service)
        (record { seen = []; order = [] }) (wanted-Known config service h)
        (omega (arith, unseen_all config)))
  where
    ended : (m : Outcome Visit) → Ends (Fewer config (unseen config [])) m → Ends (λ st. Unit {0}) m
    ended (done st) h = tt
    ended (not_found name) h = h
    ended exhausted h = h
