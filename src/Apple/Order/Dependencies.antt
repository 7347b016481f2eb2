-- ===== src/Apple/Order/Dependencies.antt =====
-- Services and those that they depend on, in the order of `start_order`.
use dip_rust.Compose.Services.{ServiceConfig}
use dip_rust.Text.Equality.{text_eq_iff}
use dip_rust.Apple.Order.{
  Config, Outcome, done, not_found, exhausted, ◌>>=◌, service_in, member, Visit, see, push_service,
}
use dip_rust.Base.{
  subst, ℕ, ◌<◌, ◌≡◌, refl, ◌⊎◌, inl, inr, Bool, true, false, ◌||◌, some, List, [], ◌∷◌, ◌++◌,
  arith, Bool-cases, is_some, Has, Has-append_left, Has-append_right,
}
use dip_rust.Text.{Text, text_eq, before}

-- A service has another one among its dependencies, and both are there.
abbrev pub Depends : Config → Text → Text → Type 0
Depends config name d =
    (service : ServiceConfig) × (service_in name config ≡ some service)
    × Has d (ServiceConfig.depends_on service)
    × (is_some (service_in d config) ≡ true)

-- No service stands twice, and each stands behind those that it depends on.
pub data Ordered (config : Config) : List Text → Type 0 where
  start : Ordered config []
  follow :
      (order : List Text) (name : Text)
      → Ordered config order
      → (Has name order → ⊥)
      → ((d : Text) → Depends config name d → Has d order)
      → Ordered config (order ++ name ∷ [])

Has-append_cases : (x : Text) (xs ys : List Text) → Has x (xs ++ ys) → Has x xs ⊎ Has x ys
Has-append_cases x [] ys h = inr h
Has-append_cases x (y ∷ xs) ys (inl e) = inl (inl e)
Has-append_cases x (y ∷ xs) ys (inr h) = elim (Has-append_cases x xs ys h) [
  | inl k ↦ inl (inr k)
  | inr k ↦ inr k
]

pub Has-member : (x : Text) (xs : List Text) → member x xs ≡ true → Has x xs
unfolding member
Has-member x [] h = cc
Has-member x (y ∷ xs) h = elim (Bool-cases (text_eq x y)) [
  | inl e ↦ inl ((text_eq_iff x y).0 e)
  | inr e ↦ inr (Has-member x xs (subst (λ b. b || member x xs ≡ true) e h))
]

member-Has : (x : Text) (xs : List Text) → Has x xs → member x xs ≡ true
unfolding member
member-Has x [] h = elim h [ ]
member-Has x (y ∷ xs) (inl e) = rw ((text_eq_iff x y).1 e) refl
member-Has x (y ∷ xs) (inr h) = either (text_eq x y) (member x xs) (member-Has x xs h)
  where
    either : (a b : Bool) → b ≡ true → a || b ≡ true
    either true b h = refl
    either false b h = h

-- If the run has a value, it has the property.
abbrev pub IfDone : {A : Type 0} → (A → Type 0) → Outcome A → Type 0
IfDone P (done a) = P a
IfDone P (not_found name) = Unit
IfDone P exhausted = Unit

module _ {A B : Type 0} (P : A → Type 0) (Q : B → Type 0) where
  pub IfDone->>= :
      (m : Outcome A) (f : A → Outcome B)
      → IfDone P m
      → ((a : A) → P a → IfDone Q (f a))
      → IfDone Q (m >>= f)
  IfDone->>= (done a) f h k = k a h
  IfDone->>= (not_found name) f h k = tt
  IfDone->>= exhausted f h k = tt

module _ {A : Type 0} (P Q : A → Type 0) where
  pub IfDone-weaken : (m : Outcome A) → ((a : A) → P a → Q a) → IfDone P m → IfDone Q m
  IfDone-weaken (done a) f h = f a h
  IfDone-weaken (not_found name) f h = tt
  IfDone-weaken exhausted f h = tt

-- The dependencies have no circle: they lead to a lower rank.
module _ (config : Config) (rank : Text → ℕ)
    (lower : (name d : Text) → Depends config name d → rank d < rank name) where
  -- The state of a visit within the visits of the services in `gray`.
  pub record Inv (gray : List Text) (st : Visit) : Type 0 where
    pub ordered : Ordered config (Visit.order st)
    pub covered : (x : Text) → Has x (Visit.seen st) → Has x (Visit.order st) ⊎ Has x gray
    pub order_seen : (x : Text) → Has x (Visit.order st) → Has x (Visit.seen st)
    pub gray_seen : (x : Text) → Has x gray → Has x (Visit.seen st)
    pub gray_out : (x : Text) → Has x gray → Has x (Visit.order st) → ⊥

  -- A service that may be visited within the visits of others.
  abbrev pub Under : Text → List Text → Type 0
  Under name gray = (y : Text) → Has y gray → rank name < rank y

  -- What was started stays so.
  abbrev pub Kept : Visit → Visit → Type 0
  Kept before after = (x : Text) → Has x (Visit.order before) → Has x (Visit.order after)

  abbrev pub Visited : List Text → Text → Visit → Visit → Type 0
  Visited gray name before after = Inv gray after × Kept before after × Has name (Visit.order after)

  pub Inv-see :
      (gray : List Text) (name : Text) (st : Visit)
      → member name (Visit.seen st) ≡ false
      → Inv gray st
      → Inv (name ∷ gray) (see name st)
  Inv-see gray name st m i = record {
    ordered = Inv.ordered i;
    covered = covered;
    order_seen = λ x h. inr (Inv.order_seen i x h);
    gray_seen = gray_seen;
    gray_out = gray_out;
  }
    where
      covered :
          (x : Text) → Has x (name ∷ Visit.seen st) → Has x (Visit.order st) ⊎ Has x (name ∷ gray)
      covered x (inl e) = inr (inl e)
      covered x (inr h) = elim (Inv.covered i x h) [ inl k ↦ inl k | inr k ↦ inr (inr k) ]

      gray_seen : (x : Text) → Has x (name ∷ gray) → Has x (name ∷ Visit.seen st)
      gray_seen x (inl e) = inl e
      gray_seen x (inr h) = inr (Inv.gray_seen i x h)

      conflict : (b : Bool) → b ≡ true → b ≡ false → ⊥
      conflict b h k = cc

      gray_out : (x : Text) → Has x (name ∷ gray) → Has x (Visit.order st) → ⊥
      gray_out x (inl e) h =
          conflict (member name (Visit.seen st))
            (member-Has name (Visit.seen st)
              (Inv.order_seen i name (subst (λ y. Has y (Visit.order st)) e h)))
            m
      gray_out x (inr k) h = Inv.gray_out i x k h

  pub Inv-push_service :
      (gray : List Text) (name : Text) (st : Visit)
      → Under name gray
      → ((d : Text) → Depends config name d → Has d (Visit.order st))
      → Inv (name ∷ gray) st
      → Inv gray (push_service name st)
  Inv-push_service gray name st under deps i = record {
    ordered = follow (Visit.order st) name (Inv.ordered i) (Inv.gray_out i name (inl refl)) deps;
    covered = covered;
    order_seen = order_seen;
    gray_seen = λ x h. Inv.gray_seen i x (inr h);
    gray_out = gray_out;
  }
    where
      covered :
          (x : Text) → Has x (Visit.seen st) → Has x (Visit.order st ++ name ∷ []) ⊎ Has x gray
      covered x h = elim (Inv.covered i x h) [
        | inl k ↦ inl (Has-append_left x (Visit.order st) (name ∷ []) k)
        | inr (inl e) ↦ inl (Has-append_right x (Visit.order st) (name ∷ []) (inl e))
        | inr (inr k) ↦ inr k
      ]

      order_seen : (x : Text) → Has x (Visit.order st ++ name ∷ []) → Has x (Visit.seen st)
      order_seen x h = elim (Has-append_cases x (Visit.order st) (name ∷ []) h) [
        | inl k ↦ Inv.order_seen i x k
        | inr (inl e) ↦ Inv.gray_seen i x (inl e)
        | inr (inr k) ↦ elim k [ ]
      ]

      no_self : (n : ℕ) → n < n → ⊥
      no_self n h = omega arith

      gray_out : (x : Text) → Has x gray → Has x (Visit.order st ++ name ∷ []) → ⊥
      gray_out x k h = elim (Has-append_cases x (Visit.order st) (name ∷ []) h) [
        | inl o ↦ Inv.gray_out i x (inr k) o
        | inr (inl e) ↦ no_self (rank name) (subst (λ y. rank name < rank y) e (under x k))
        | inr (inr o) ↦ elim o [ ]
      ]
