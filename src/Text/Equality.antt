-- ===== src/Text/Equality.antt =====
-- `text_eq` decides equality.
use dip_rust.Base.{subst, ◌≡◌, refl, sym, ◌↔◌, inl, inr, Bool, true, false, ◌∷◌, arith, Bool-cases}
use dip_rust.Text.{Text, text_eq}

pub text_eq_iff : (s t : Text) → (text_eq s t ≡ true) ↔ (s ≡ t)
unfolding text_eq
text_eq_iff (x ∷ s) (y ∷ t) = ground (arith, text_eq_iff s t)
text_eq_iff _ _ = ground arith

pub text_eq_self : (s : Text) → text_eq s s ≡ true
text_eq_self s = (text_eq_iff s s).1 refl

pub text_eq_sym : (s t : Text) → text_eq s t ≡ false → text_eq t s ≡ false
text_eq_sym s t h = elim (Bool-cases (text_eq t s)) [
  | inl e ↦
      conflict (subst (λ x. text_eq s x ≡ true) (sym ((text_eq_iff t s).0 e)) (text_eq_self s)) h
  | inr e ↦ e
]
  where
    conflict : {b : Bool} {P : Type 0} → b ≡ true → b ≡ false → P
    conflict x y = cc
