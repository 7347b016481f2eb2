-- ===== src/Env/Lookup.antt =====
-- What the map holds that `collect` of src/utils/env.rs makes of pairs.
use dip_rust.Base.{
  ◌≡◌, refl, sym, ◌∙◌, inl, inr, true, false, Option, none, some, List, [], ◌∷◌, arith,
  if◌then◌else◌, Bool-cases, Option-cases, or_else,
}
use dip_rust.Env.{Env, lookup, insert, collect_onto}
use dip_rust.Text.Equality.{text_eq_iff}
use dip_rust.Text.{Text, text_eq}

lookup-insert :
    (key value : Text) (env : Env) (k : Text)
    → lookup k (insert key value env) ≡ (if text_eq k key then some value else lookup k env)
unfolding lookup insert
lookup-insert key value [] k = refl
lookup-insert key value ((j, v) ∷ env) k = elim (Bool-cases (text_eq key j)) [
  | inl same ↦
      rw (same, (text_eq_iff key j).0 same)
        (elim (Bool-cases (text_eq k j)) [ inl a ↦ rw a | inr a ↦ rw a ])
  | inr other ↦
      let not_key : text_eq k j ≡ true → text_eq k key ≡ false = λ a.
        elim (Bool-cases (text_eq k key)) [
          | inr b ↦ b
          | inl b ↦
              cc (
                other,
                (text_eq_iff key j).1 (sym ((text_eq_iff k key).0 b) ∙ (text_eq_iff k j).0 a),
              )
        ] in
      rw (other, lookup-insert key value env k)
        (elim (Bool-cases (text_eq k j)) [ inr a ↦ rw a | inl a ↦ rw (a, not_key a) ])
]

-- The value of the last assignment to a key.
unfoldable pub last_value : Text → List (Text × Text) → Option Text
last_value k [] = none
last_value k ((j, v) ∷ pairs) = or_else (last_value k pairs) (if text_eq k j then some v else none)

pub or_else-none : {A : Type 0} (o : Option A) → or_else o none ≡ o
or_else-none none = refl
or_else-none (some a) = refl

pub lookup-collect_onto :
    (pairs : List (Text × Text)) (env : Env) (k : Text)
    → lookup k (collect_onto env pairs) ≡ or_else (last_value k pairs) (lookup k env)
unfolding collect_onto last_value
lookup-collect_onto [] env k = refl
lookup-collect_onto ((j, v) ∷ pairs) env k =
    rw (lookup-collect_onto pairs (insert j v env) k, lookup-insert j v env k)
      (ground (arith, Option-cases (last_value k pairs)))
