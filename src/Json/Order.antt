-- ===== src/Json/Order.antt =====
-- The order of a map's keys, as in a `BTreeMap`.
use dip_rust.Json.Maps.{Distinct}
use dip_rust.Text.Equality.{text_eq_iff}
use dip_rust.Base.{
  subst, ◌≡◌, refl, sym, inl, inr, Bool, true, false, none, [], ◌∷◌, arith, ==_iff, Bool-cases,
}
use dip_rust.Text.{Text, text_eq}
use dip_rust.Json.{Value, Fields, no_fields, field, get, insert, text_lt}

text_lt_irrefl : (s : Text) → text_lt s s ≡ false
unfolding text_lt
text_lt_irrefl [] = refl
text_lt_irrefl (c ∷ s) = rw ((==_iff c c).1 refl, text_lt_irrefl s) refl

text_lt_trans : (r s t : Text) → text_lt r s ≡ true → text_lt s t ≡ true → text_lt r t ≡ true
unfolding text_lt
text_lt_trans [] (c ∷ s) (d ∷ t) h k = refl
text_lt_trans [] [] t h k = cc
text_lt_trans [] (c ∷ s) [] h k = cc
text_lt_trans (b ∷ r) [] t h k = cc
text_lt_trans (b ∷ r) (c ∷ s) [] h k = cc
text_lt_trans (b ∷ r) (c ∷ s) (d ∷ t) h k = ground (arith, text_lt_trans r s t)

text_lt_total : (s t : Text) → text_eq s t ≡ false → text_lt s t ≡ false → text_lt t s ≡ true
unfolding text_lt text_eq
text_lt_total [] [] e h = cc
text_lt_total [] (d ∷ t) e h = cc
text_lt_total (c ∷ s) [] e h = refl
text_lt_total (c ∷ s) (d ∷ t) e h = ground (arith, text_lt_total s t)

-- All keys are behind one.
abbrev Behind : Text → Fields → Type 0
Behind k no_fields = Unit
Behind k (field j v rest) = (text_lt k j ≡ true) × Behind k rest

-- The keys increase.
abbrev pub Sorted : Fields → Type 0
Sorted no_fields = Unit
Sorted (field k v rest) = Behind k rest × Sorted rest

Behind-trans : (j k : Text) (m : Fields) → text_lt j k ≡ true → Behind k m → Behind j m
Behind-trans j k no_fields h b = tt
Behind-trans j k (field i v rest) h (l, b) = (text_lt_trans j k i h l, Behind-trans j k rest h b)

Behind-insert :
    (j key : Text) (v : Value) (m : Fields)
    → text_lt j key ≡ true
    → Behind j m
    → Behind j (insert key v m)
unfolding insert
Behind-insert j key v no_fields h b = (h, tt)
Behind-insert j key v (field i w rest) h (l, b) = elim (Bool-cases (text_eq key i)) [
  | inl e ↦ rw e (h, b)
  | inr e ↦ elim (Bool-cases (text_lt key i)) [
    | inl k ↦ rw (e, k) (h, (l, b))
    | inr k ↦ rw (e, k) (l, Behind-insert j key v rest h b)
  ]
]

-- Insertion keeps the keys in their order.
pub insert-Sorted : (key : Text) (v : Value) (m : Fields) → Sorted m → Sorted (insert key v m)
unfolding insert
insert-Sorted key v no_fields s = (tt, tt)
insert-Sorted key v (field i w rest) (b, s) = elim (Bool-cases (text_eq key i)) [
  | inl e ↦ rw e (subst (λ x. Behind x rest) (sym ((text_eq_iff key i).0 e)) b, s)
  | inr e ↦ elim (Bool-cases (text_lt key i)) [
    | inl l ↦ rw (e, l) ((l, Behind-trans key i rest l b), (b, s))
    | inr l ↦
        rw (e, l)
          (Behind-insert i key v rest (text_lt_total key i e l) b, insert-Sorted key v rest s)
  ]
]

get_Behind : (k : Text) (m : Fields) → Behind k m → get k m ≡ none
unfolding get
get_Behind k no_fields b = refl
get_Behind k (field j v rest) (l, b) = elim (Bool-cases (text_eq k j)) [
  | inl e ↦
      conflict (subst (λ x. text_lt k x ≡ true) (sym ((text_eq_iff k j).0 e)) l) (text_lt_irrefl k)
  | inr e ↦ rw e (get_Behind k rest b)
]
  where
    conflict : {b : Bool} {P : Type 0} → b ≡ true → b ≡ false → P
    conflict x y = cc

pub Sorted-Distinct : (m : Fields) → Sorted m → Distinct m
Sorted-Distinct no_fields s = tt
Sorted-Distinct (field k v rest) (b, s) = (get_Behind k rest b, Sorted-Distinct rest s)
