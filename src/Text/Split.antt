-- ===== src/Text/Split.antt =====
-- What `before`, `split_once`, `split` and `join` find.
use dip_rust.Base.{
  ℕ, ◌≡◌, refl, sym, ap, ◌∙◌, inl, inr, false, ◌||◌, none, some, List, [], ◌∷◌, ◌++◌, arith, ◌==◌,
  ==_iff, Bool-cases, Option-cases, All,
}
use dip_rust.Text.{Text, contains_char, split_once, cons_to_first, split, before}

pub before-append :
    (sep : ℕ) (s t : Text) → contains_char sep s ≡ false → before sep (s ++ (sep ∷ t)) ≡ s
unfolding before contains_char
before-append sep [] t h = ground arith
before-append sep (c ∷ s) t h = ground (arith, before-append sep s t)

pub before_self : (sep : ℕ) (s : Text) → contains_char sep s ≡ false → before sep s ≡ s
unfolding before contains_char
before_self sep [] h = refl
before_self sep (c ∷ s) h = ground (arith, before_self sep s)

pub contains_char-before : (sep : ℕ) (s : Text) → contains_char sep (before sep s) ≡ false
unfolding before contains_char
contains_char-before sep [] = refl
contains_char-before sep (c ∷ s) = ground (arith, contains_char-before sep s)

pub split_once-append :
    (sep : ℕ) (s t : Text)
    → contains_char sep s ≡ false
    → split_once sep (s ++ (sep ∷ t)) ≡ some (s, t)
unfolding split_once contains_char
split_once-append sep [] t h = ground arith
split_once-append sep (c ∷ s) t h = ground (arith, split_once-append sep s t)

pub split_once_sound :
    (sep : ℕ) (s l r : Text)
    → split_once sep s ≡ some (l, r)
    → (s ≡ l ++ (sep ∷ r)) × (contains_char sep l ≡ false)
unfolding split_once contains_char
split_once_sound sep [] l r h = cc
split_once_sound sep (c ∷ s) l r h = elim (Option-cases (split_once sep s)) [
  | inl e ↦ ground arith
  | inr ((a, b), e) ↦ ground (arith, split_once_sound sep s a b e)
]

pub split_once-none : (sep : ℕ) (s : Text) → contains_char sep s ≡ false → split_once sep s ≡ none
unfolding split_once contains_char
split_once-none sep [] h = refl
split_once-none sep (c ∷ s) h = ground (arith, split_once-none sep s)

pub split-append :
    (sep : ℕ) (s t : Text)
    → contains_char sep s ≡ false
    → split sep (s ++ (sep ∷ t)) ≡ s ∷ split sep t
unfolding split contains_char
split-append sep [] t h = rw ((==_iff sep sep).1 refl) refl
split-append sep (c ∷ s) t h =
    rw (((no_head sep c s h)).0, split-append sep s t (no_head sep c s h).1) refl
  where
    no_head :
        (sep c : ℕ) (s : Text)
        → (sep == c || contains_char sep s) ≡ false
        → (sep == c ≡ false) × (contains_char sep s ≡ false)
    no_head sep c s h = (ground arith, ground arith)

pub split_self : (sep : ℕ) (s : Text) → contains_char sep s ≡ false → split sep s ≡ s ∷ []
unfolding split contains_char
split_self sep [] h = refl
split_self sep (c ∷ s) h = rw ((no_head sep c s h).0, split_self sep s (no_head sep c s h).1) refl
  where
    no_head :
        (sep c : ℕ) (s : Text)
        → (sep == c || contains_char sep s) ≡ false
        → (sep == c ≡ false) × (contains_char sep s ≡ false)
    no_head sep c s h = (ground arith, ground arith)

-- No part has the separator.
abbrev pub Without : ℕ → Text → Type 0
Without sep part = contains_char sep part ≡ false

Without-cons_to_first :
    (sep c : ℕ) (parts : List Text)
    → sep == c ≡ false
    → All (Without sep) parts
    → All (Without sep) (cons_to_first c parts)
unfolding contains_char
Without-cons_to_first sep c [] e h = (rw e refl, tt)
Without-cons_to_first sep c (p ∷ parts) e (hp, h) = (rw (e, hp) refl, h)

pub split-Without : (sep : ℕ) (s : Text) → All (Without sep) (split sep s)
unfolding split contains_char
split-Without sep [] = (refl, tt)
split-Without sep (c ∷ s) = elim (Bool-cases (sep == c)) [
  | inl e ↦ rw e (refl, split-Without sep s)
  | inr e ↦ rw e (Without-cons_to_first sep c (split sep s) e (split-Without sep s))
]

-- There is always a part.
pub split_some :
    (sep : ℕ) (s : Text) → (part : Text) × (parts : List Text) × (split sep s ≡ part ∷ parts)
unfolding split
split_some sep [] = ([], [], refl)
split_some sep (c ∷ s) = elim (Bool-cases (sep == c)) [
  | inl e ↦ ([], split sep s, rw e refl)
  | inr e ↦
      let (part, parts, known) = split_some sep s in
      (c ∷ part, parts, rw e (ap (cons_to_first c) known))
]

pub split_separated :
    (sep : ℕ) (base s : Text) → split sep (base ++ (sep ∷ s)) ≡ split sep base ++ split sep s
unfolding split
split_separated sep [] s = rw ((==_iff sep sep).1 refl) refl
split_separated sep (c ∷ base) s = elim (Bool-cases (sep == c)) [
  | inl e ↦ rw e (ap (◌∷◌ []) (split_separated sep base s))
  | inr e ↦
      let (part, parts, known) = split_some sep base in
      rw e (
        ap (cons_to_first c) (split_separated sep base s ∙ ap (λ ps. ps ++ split sep s) known)
        ∙ ap (λ ps. cons_to_first c ps ++ split sep s) (sym known))
]
