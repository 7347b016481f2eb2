-- ===== src/Json/Maps.antt =====
-- Maps as lists of entries: what `get` finds after an insertion.
use dip_rust.Text.Equality.{text_eq_iff}
use dip_rust.Base.{
  subst, ◌≡◌, refl, sym, ap, ◌∙◌, inl, inr, Bool, true, false, Option, none, some, if◌then◌else◌,
  Bool-cases, or_else,
}
use dip_rust.Text.{Text, text_eq}
use dip_rust.Json.{
  insert_unless, Value, Fields, no_fields, field, get, insert, insert_new, insert_all,
  insert_all_new, text_lt,
}

pub or_else-none : (o : Option Value) → o ≡ or_else o none
or_else-none none = refl
or_else-none (some v) = refl

pub or_else_assoc : (a b c : Option Value) → or_else (or_else a b) c ≡ or_else a (or_else b c)
or_else_assoc none b c = refl
or_else_assoc (some v) b c = refl

pub get-insert :
    (k key : Text) (v : Value) (m : Fields)
    → get k (insert key v m) ≡ (if text_eq k key then some v else get k m)
unfolding get insert
get-insert k key v no_fields = refl
get-insert k key v (field j w rest) = elim (Bool-cases (text_eq key j)) [
  | inl e ↦ rw e (same (text_eq k key) (text_eq k j) (ap (text_eq k) ((text_eq_iff key j).0 e)))
  | inr e ↦ rw e (elim (Bool-cases (text_lt key j)) [
    | inl l ↦ rw l refl
    | inr l ↦
        rw (l, get-insert k key v rest) (later (text_eq k key) (text_eq k j) (λ a b. apart a b e))
  ])
]
  where
    unequal : true ≡ false → ⊥
    unequal h = cc

    same :
        (a b : Bool)
        → a ≡ b
        → (if a then some v else get k rest)
          ≡ (if a then some v else if b then some w else get k rest)
    same true b h = refl
    same false true h = cc
    same false false h = refl

    later :
        (a b : Bool)
        → (a ≡ true → b ≡ true → ⊥)
        → (if b then some w else if a then some v else get k rest)
          ≡ (if a then some v else if b then some w else get k rest)
    later true true h = elim (h refl refl) [ ]
    later true false h = refl
    later false b h = refl

    apart : text_eq k key ≡ true → text_eq k j ≡ true → text_eq key j ≡ false → ⊥
    apart a b e = unequal (sym (subst (λ x. text_eq x j ≡ true) ((text_eq_iff k key).0 a) b) ∙ e)

pub get-insert_new :
    (k key : Text) (v : Value) (m : Fields)
    → get k (insert_new key v m) ≡ or_else (get k m) (if text_eq k key then some v else none)
unfolding insert_new
get-insert_new k key v m = unless (get key m) refl
  where
    found :
        (b : Bool) (o : Option Value) (w : Value)
        → (b ≡ true → o ≡ some w)
        → o ≡ or_else o (if b then some v else none)
    found true none w h = elim (none_some (h refl)) [ ]
      where
        none_some : none ≡ some w → ⊥
        none_some e = cc
    found true (some x) w h = refl
    found false none w h = refl
    found false (some x) w h = refl

    absent :
        (b : Bool) (o : Option Value)
        → (b ≡ true → o ≡ none)
        → (if b then some v else o) ≡ or_else o (if b then some v else none)
    absent true o h = rw (h refl) refl
    absent false none h = refl
    absent false (some x) h = refl

    at_key : {o : Option Value} → get key m ≡ o → text_eq k key ≡ true → get k m ≡ o
    at_key e t = ap (λ x. get x m) ((text_eq_iff k key).0 t) ∙ e

    unless :
        (o : Option Value)
        → get key m ≡ o
        → get k (insert_unless o key v m)
          ≡ or_else (get k m) (if text_eq k key then some v else none)
    unless none e = get-insert k key v m ∙ absent (text_eq k key) (get k m) (at_key e)
    unless (some w) e = found (text_eq k key) (get k m) w (at_key e)

pub get-insert_all_new :
    (k : Text) (from m : Fields) → get k (insert_all_new from m) ≡ or_else (get k m) (get k from)
unfolding insert_all_new get
get-insert_all_new k no_fields m = or_none (get k m)
  where
    or_none : (o : Option Value) → o ≡ or_else o none
    or_none none = refl
    or_none (some v) = refl
get-insert_all_new k (field key v rest) m =
    get-insert_all_new k rest (insert_new key v m)
    ∙ (ap (λ o. or_else o (get k rest)) (get-insert_new k key v m)
        ∙ joined (text_eq k key) (get k m))
  where
    joined :
        (b : Bool) (o : Option Value)
        → or_else (or_else o (if b then some v else none)) (get k rest)
          ≡ or_else o (if b then some v else get k rest)
    joined b (some x) = refl
    joined true none = refl
    joined false none = refl

-- No key stands twice.
abbrev pub Distinct : Fields → Type 0
Distinct no_fields = Unit
Distinct (field key v rest) = (get key rest ≡ none) × Distinct rest

pub get-insert_all :
    (k : Text) (from m : Fields)
    → Distinct from
    → get k (insert_all from m) ≡ or_else (get k from) (get k m)
unfolding insert_all get
get-insert_all k no_fields m d = refl
get-insert_all k (field key v rest) m (a, d) =
    get-insert_all k rest (insert key v m) d
    ∙ (ap (or_else (get k rest)) (get-insert k key v m)
        ∙ joined (text_eq k key) (get k rest)
            (λ e. ap (λ x. get x rest) ((text_eq_iff k key).0 e) ∙ a))
  where
    joined :
        (b : Bool) (o : Option Value)
        → (b ≡ true → o ≡ none)
        → or_else o (if b then some v else get k m) ≡ or_else (if b then some v else o) (get k m)
    joined true o h = rw (h refl) refl
    joined false o h = refl
