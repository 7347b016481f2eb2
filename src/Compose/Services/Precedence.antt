-- ===== src/Compose/Services/Precedence.antt =====
-- Which entry of a service counts: its own, or one that its merge key brings.
use dip_rust.Json.Maps.{or_else-none, or_else_assoc, get-insert, get-insert_all_new, Distinct}
use dip_rust.Json.Order.{Sorted, Sorted-Distinct}
use dip_rust.Text.Equality.{text_eq_iff}
use dip_rust.Compose.Services.{
  insert_own, merge_base, merge_service_map, merge_value_into, merge_items_into,
}
use dip_rust.Base.{
  ◌≡◌, refl, ap, ◌∙◌, inl, inr, Bool, true, false, Option, none, some, if◌then◌else◌, Bool-cases,
  or_else,
}
use dip_rust.Text.{Text, codes, text_eq}
use dip_rust.Json.{
  Value, Items, Fields, null, bool, int, float, string, array, object, no_items, item, no_fields,
  field, get, insert,
}

-- The first entry of a merge value: of a mapping, or in a list of values, however deep.
unfoldable mutual
  pub first_in : Text → Value → Option Value
  first_in key (object known) = get key known
  first_in key (array items) = first_among key items
  first_in key null = none
  first_in key (bool b) = none
  first_in key (int i) = none
  first_in key (float t) = none
  first_in key (string s) = none

  pub first_among : Text → Items → Option Value
  first_among key no_items = none
  first_among key (item v items) = or_else (first_in key v) (first_among key items)

mutual
  unfolding merge_value_into first_in

  get-merge_value_into :
      (key : Text) (v : Value) (target : Fields)
      → get key (merge_value_into v target) ≡ or_else (get key target) (first_in key v)
  get-merge_value_into key (object known) target = get-insert_all_new key known target
  get-merge_value_into key (array items) target = get-merge_items_into key items target
  get-merge_value_into key null target = or_else-none (get key target)
  get-merge_value_into key (bool b) target = or_else-none (get key target)
  get-merge_value_into key (int i) target = or_else-none (get key target)
  get-merge_value_into key (float t) target = or_else-none (get key target)
  get-merge_value_into key (string s) target = or_else-none (get key target)

  get-merge_items_into :
      (key : Text) (items : Items) (target : Fields)
      → get key (merge_items_into items target) ≡ or_else (get key target) (first_among key items)
  get-merge_items_into key no_items target = or_else-none (get key target)
  get-merge_items_into key (item v items) target =
      get-merge_items_into key items (merge_value_into v target)
      ∙ (ap (λ o. or_else o (first_among key items)) (get-merge_value_into key v target)
          ∙ or_else_assoc (get key target) (first_in key v) (first_among key items))

get-insert_own :
    (key : Text) (own merged : Fields)
    → Distinct own
    → text_eq key (codes "<<") ≡ false
    → get key (insert_own own merged) ≡ or_else (get key own) (get key merged)
unfolding insert_own get
get-insert_own key no_fields merged d k = refl
get-insert_own key (field j v rest) merged (a, d) k = elim (Bool-cases (text_eq j (codes "<<"))) [
  | inl e ↦ rw (e, unlike e) (get-insert_own key rest merged d k)
  | inr e ↦ rw e (
      get-insert_own key rest (insert j v merged) d k
      ∙ (ap (or_else (get key rest)) (get-insert key j v merged)
          ∙ joined (text_eq key j) (get key rest)
              (λ h. ap (λ x. get x rest) ((text_eq_iff key j).0 h) ∙ a)))
]
  where
    unlike : text_eq j (codes "<<") ≡ true → text_eq key j ≡ false
    unlike e = rw ((text_eq_iff j (codes "<<")).0 e) k

    joined :
        (b : Bool) (o : Option Value)
        → (b ≡ true → o ≡ none)
        → or_else o (if b then some v else get key merged)
          ≡ or_else (if b then some v else o) (get key merged)
    joined true o h = rw (h refl) refl
    joined false o h = refl

-- The base of a service, from its merge key.
abbrev pub base_entry : Text → Option Value → Option Value
base_entry key none = none
base_entry key (some base) = first_in key base

get-merge_base :
    (key : Text) (base : Option Value) → get key (merge_base base) ≡ base_entry key base
unfolding get
get-merge_base key none = refl
get-merge_base key (some base) = get-merge_value_into key base no_fields

abbrev pub found_in : Text → Option Fields → Option Value
found_in key none = none
found_in key (some known) = get key known

-- A service's entry, other than the merge key itself, is its own if it has one, and else the first
-- that the value of its merge key brings, a mapping or a list of them; the service's keys are in
-- order, as the reader leaves them.
pub get-merge_service_map :
    (key : Text) (service : Fields)
    → Sorted service
    → text_eq key (codes "<<") ≡ false
    → found_in key (merge_service_map (object service))
      ≡ or_else (get key service) (base_entry key (get (codes "<<") service))
unfolding merge_service_map
get-merge_service_map key service s k =
    get-insert_own key service (merge_base (get (codes "<<") service)) (Sorted-Distinct service s) k
    ∙ ap (or_else (get key service)) (get-merge_base key (get (codes "<<") service))
