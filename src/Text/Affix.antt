-- ===== src/Text/Affix.antt =====
-- What `starts_with`, `strip_prefix` and `ends_with` find.
use dip_rust.Base.{true, [], ◌∷◌, ◌++◌, some, ◌≡◌, refl, ap, arith, inl, inr, Bool-cases}
use dip_rust.Text.Equality.{text_eq_iff}
use dip_rust.Text.{Text, text_eq, strip_prefix, starts_with, ends_with}

pub strip_prefix-append : (p s : Text) → strip_prefix p (p ++ s) ≡ some s
unfolding strip_prefix
strip_prefix-append [] s = refl
strip_prefix-append (c ∷ p) s = ground (arith, strip_prefix-append p s)

pub strip_prefix_sound : (p s : Text) {t : Text} → strip_prefix p s ≡ some t → s ≡ p ++ t
unfolding strip_prefix
strip_prefix_sound [] s h = ground arith
strip_prefix_sound (c ∷ p) [] h = ground arith
strip_prefix_sound (c ∷ p) (d ∷ s) {t} h = ground (arith, strip_prefix_sound p s {t = t})

pub starts_with-append : (p s : Text) → starts_with p (p ++ s) ≡ true
unfolding starts_with
starts_with-append [] s = refl
starts_with-append (c ∷ p) s = ground (arith, starts_with-append p s)

pub starts_with_sound : (p s : Text) → starts_with p s ≡ true → (t : Text) × (s ≡ p ++ t)
unfolding starts_with
starts_with_sound [] s h = (s, refl)
starts_with_sound (c ∷ p) [] h = ground arith
starts_with_sound (c ∷ p) (d ∷ s) h =
    let (t, e) = starts_with_sound p s (ground arith) in (t, ground arith)

pub ends_with-append : (pre suffix : Text) → ends_with suffix (pre ++ suffix) ≡ true
unfolding ends_with
ends_with-append [] [] = refl
ends_with-append [] (c ∷ s) = ground (arith, text_eq_iff (c ∷ s) (c ∷ s))
ends_with-append (c ∷ pre) suffix = ground (arith, ends_with-append pre suffix)

pub ends_with_sound :
    (suffix s : Text) → ends_with suffix s ≡ true → (pre : Text) × (s ≡ pre ++ suffix)
unfolding ends_with
ends_with_sound suffix [] h = ([], ground (arith, text_eq_iff suffix []))
ends_with_sound suffix (c ∷ s) h = elim (Bool-cases (text_eq suffix (c ∷ s))) [
  | inl e ↦ ([], ground (arith, text_eq_iff suffix (c ∷ s)))
  | inr ne ↦ let (pre, e) = ends_with_sound suffix s (ground arith) in (c ∷ pre, ap (◌∷◌ c) e)
]
