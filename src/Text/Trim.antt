-- ===== src/Text/Trim.antt =====
-- What `trim` leaves.
use dip_rust.Base.{ℕ, ◌≡◌, refl, Bool, true, false, [], ◌∷◌, ◌++◌, All}
use dip_rust.Text.{
  Text, is_whitespace, trim_start_by, keep_unless, trim_end_by, trim_start, trim_end,
}

pub trim_start_by-append :
    (test : ℕ → Bool) (pad s : Text)
    → All (λ c. test c ≡ true) pad
    → trim_start_by test (pad ++ s) ≡ trim_start_by test s
unfolding trim_start_by
trim_start_by-append test [] s h = refl
trim_start_by-append test (c ∷ pad) s (k, h) = rw (k, trim_start_by-append test pad s h)

pub trim_end_by_all :
    (test : ℕ → Bool) (pad : Text) → All (λ c. test c ≡ true) pad → trim_end_by test pad ≡ []
unfolding trim_end_by
trim_end_by_all test [] h = refl
trim_end_by_all test (c ∷ pad) (k, h) = rw (trim_end_by_all test pad h, k)

-- What ends in a character that stays, and padding behind it, loses the padding.
pub trim_end_by-append :
    (test : ℕ → Bool) (s : Text) (c : ℕ) (pad : Text)
    → test c ≡ false
    → All (λ d. test d ≡ true) pad
    → trim_end_by test (s ++ (c ∷ pad)) ≡ s ++ (c ∷ [])
unfolding trim_end_by
trim_end_by-append test [] c pad k h = rw (trim_end_by_all test pad h, k)
trim_end_by-append test (d ∷ []) c pad k h = rw (trim_end_by-append test [] c pad k h)
trim_end_by-append test (d ∷ e ∷ s) c pad k h = rw (trim_end_by-append test (e ∷ s) c pad k h)

pub trim_start_none : (s : Text) → All (λ c. is_whitespace c ≡ false) s → trim_start s ≡ s
unfolding trim_start_by
trim_start_none [] h = refl
trim_start_none (c ∷ s) (k, h) = rw k

keep_unless-false : (c : ℕ) (s : Text) → keep_unless false c s ≡ c ∷ s
keep_unless-false c [] = refl
keep_unless-false c (d ∷ s) = refl

pub trim_end_none : (s : Text) → All (λ c. is_whitespace c ≡ false) s → trim_end s ≡ s
unfolding trim_end_by
trim_end_none [] h = refl
trim_end_none (c ∷ s) (k, h) = rw (trim_end_none s h, k) (keep_unless-false c s)
