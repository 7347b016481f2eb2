-- ===== src/Db/Schema/Widths.antt =====
-- The display width of a column's type, and the part in parentheses that src/db/migrate.rs takes.
use dip_rust.Base.{
  le→ltb-false, ℕ, ◌+◌, ◌-◌, ◌≤◌, ◌≡◌, refl, sym, ap, ◌∙◌, Bool, true, false, Option, none, some,
  [], ◌∷◌, ◌++◌, append_assoc, arith, ◌==◌, length, take, drop, length-append, All, All-append,
}
use dip_rust.Db.Schema.{paren_part, slice_inclusive}
use dip_rust.Db.Services.{both, position}
use dip_rust.Text.{Text, codes, contains_char, contains, starts_with}

position-append :
    (test : ℕ → Bool) (pre : Text) (x : ℕ) (s : Text)
    → All (λ c. test c ≡ false) pre
    → test x ≡ true
    → position test (pre ++ x ∷ s) ≡ some (length pre)
unfolding position
position-append test [] x s h t = rw t refl
position-append test (c ∷ pre) x s (k, h) t = rw (k, position-append test pre x s h t) refl

pub no_parens : (d : ℕ) → (48 ≤ d) × (d ≤ 57) → (d == b'(' ≡ false) × (d == b')' ≡ false)
no_parens d h = (ground arith, ground arith)

pub All-no_paren :
    (digits : Text) → All (λ c. (48 ≤ c) × (c ≤ 57)) digits → All (λ c. c == b')' ≡ false) digits
All-no_paren [] h = tt
All-no_paren (c ∷ digits) (k, h) = ((no_parens c k).1, All-no_paren digits h)

pub All-contains_char : (d : ℕ) (s : Text) → contains_char d s ≡ false → All (λ c. c == d ≡ false) s
unfolding contains_char
All-contains_char d [] h = tt
All-contains_char d (c ∷ s) h = (ground arith, All-contains_char d s (ground arith))

slice_inclusive-some :
    (from to : ℕ) (s : Text)
    → from ≤ to + 1
    → (part : Text) × (slice_inclusive from to s ≡ some part)
unfolding slice_inclusive
slice_inclusive-some from to s h =
    (take (to + 1 - from) (drop from s), rw (le→ltb-false (to + 1) from h) refl)

paren_part-positions :
    (ct : Text) (s e : ℕ) (part : Text)
    → position (λ c. c == b'(') ct ≡ some s
    → position (λ c. c == b')') ct ≡ some e
    → slice_inclusive s e ct ≡ some part
    → paren_part ct ≡ some (some part)
unfolding paren_part
paren_part-positions ct s e part from to sliced =
    ap (λ o. parted (both o (position (λ c. c == b')') ct))) from
    ∙ ap (λ o. parted (both (some s) o)) to
    ∙ rw sliced refl
  where
    parted : Option (ℕ × ℕ) → Option (Option Text)
    parted none = some none
    parted (some (a, b)) = elim (slice_inclusive a b ct) [ none ↦ none | some p ↦ some (some p) ]

pub paren_part-width :
    (name digits s : Text)
    → All (λ c. c == b'(' ≡ false) name
    → All (λ c. c == b')' ≡ false) name
    → All (λ c. c == b')' ≡ false) digits
    → (part : Text) × (paren_part (name ++ b'(' ∷ (digits ++ b')' ∷ s)) ≡ some (some part))
paren_part-width name digits s open_none close_none h =
    let close : position (λ c. c == b')') (name ++ b'(' ∷ (digits ++ b')' ∷ s))
        ≡ some (length (name ++ b'(' ∷ digits)) =
      ap (position (λ c. c == b')')) (sym (append_assoc name (b'(' ∷ digits) (b')' ∷ s)))
      ∙ position-append (λ c. c == b')') (name ++ b'(' ∷ digits) b')' s
          (All-append (λ c. c == b')' ≡ false) name (b'(' ∷ digits) close_none (refl, h)) refl in
    let (part, e) =
      slice_inclusive-some (length name) (length (name ++ b'(' ∷ digits))
        (name ++ b'(' ∷ (digits ++ b')' ∷ s))
        (omega (arith, length-append {0} name (b'(' ∷ digits))) in
    (
      part,
      paren_part-positions (name ++ b'(' ∷ (digits ++ b')' ∷ s)) (length name)
          (length (name ++ b'(' ∷ digits)) part
          (position-append (λ c. c == b'(') name b'(' (digits ++ b')' ∷ s) open_none refl) close e,
    )

pub contains-digits :
    (digits s : Text)
    → All (λ c. (48 ≤ c) × (c ≤ 57)) digits
    → contains (codes "unsigned") (digits ++ s) ≡ contains (codes "unsigned") s
unfolding contains starts_with
contains-digits [] s h = refl
contains-digits (c ∷ digits) s (k, h) =
    let other : b'u' == c ≡ false = ground arith in rw (other, contains-digits digits s h) refl
