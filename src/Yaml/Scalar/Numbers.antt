-- ===== src/Yaml/Scalar/Numbers.antt =====
-- Decimal integers as `plain_scalar` of src/utils/yaml.rs reads them.
use dip_rust.Text.Decimal.{
  to_decimal, signed_decimal, decimal_value-to_decimal, All-to_decimal, to_decimal_nonempty,
}
use dip_rust.Base.{
  ℤ, pos, negsuc, ℕ, suc, ◌-◌, ◌^◌, ◌≤◌, ◌<◌, ◌≡◌, refl, ap, ◌∙◌, ◌≢◌, Bool, true, false, ◌||◌,
  Option, none, some, [], ◌∷◌, arith, ltb, leb, ◌==◌, if◌then◌else◌, All,
}
use dip_rust.Text.{Text, codes, text_eq, is_empty}
use dip_rust.Json.{Value, null, bool, int}
use dip_rust.Yaml.Scalar.{
  is_digit, all_digits, in_range, parse_digits, parse_i64, one_of, plain_scalar,
}

abbrev Digit : ℕ → Type 0
Digit c = (48 ≤ c) × (c ≤ 57)

is_digit-Digit : (c : ℕ) → Digit c → is_digit c ≡ true
is_digit-Digit c (h, k) = ground arith

all_digits-All : (s : Text) → All Digit s → all_digits s ≡ true
all_digits-All [] h = refl
all_digits-All (c ∷ s) (d, h) = rw (is_digit-Digit c d, all_digits-All s h) refl

-- A text that starts with a digit or a minus sign is none of the words.
abbrev Numeric : ℕ → Type 0
Numeric c = (45 ≤ c) × (c ≤ 57)

differs : (c d : ℕ) → c < d → c == d ≡ false
differs c d h = ground arith

no_word :
    (c : ℕ) (s : Text)
    → Numeric c
    → (one_of (c ∷ s) ([] ∷ codes "~" ∷ codes "null" ∷ codes "Null" ∷ codes "NULL" ∷ []) ≡ false)
      × (one_of (c ∷ s) (codes "true" ∷ codes "True" ∷ codes "TRUE" ∷ []) ≡ false)
      × (one_of (c ∷ s) (codes "false" ∷ codes "False" ∷ codes "FALSE" ∷ []) ≡ false)
unfolding text_eq
no_word c s (_, h) = (
  rw (differs c 126 (omega arith), differs c 110 (omega arith), differs c 78 (omega arith)) refl,
  rw (differs c 116 (omega arith), differs c 84 (omega arith)) refl,
  rw (differs c 102 (omega arith), differs c 70 (omega arith)) refl,
)

-- The choices of `plain_scalar`, for a text that is no word and an integer.
chosen :
    (a b c d : Bool) (o : Option ℤ) (i : ℤ) (rest words : Value)
    → (a ≡ false) × (b ≡ false) × (c ≡ false)
    → d ≡ true
    → o ≡ some i
    → (if a
        then null
        else if b
        then bool true
        else if c
        then bool false
        else if d
        then elim o [ some j ↦ int j | none ↦ rest ]
        else words)
      ≡ int i
chosen a b c d o i rest words (ea, eb, ec) ed e = rw (ea, eb, ec, ed, e) refl

module _ (is_f64 : Text → Bool) where
  -- A numeric text is the integer that it is read as.
  plain_scalar-int :
      (c : ℕ) (s : Text) (i : ℤ)
      → Numeric c
      → (is_digit c || c == b'-' || c == b'+' || c == b'.') ≡ true
      → parse_i64 (c ∷ s) ≡ some i
      → plain_scalar is_f64 (c ∷ s) ≡ int i
  unfolding plain_scalar
  plain_scalar-int c s i n d h = chosen _ _ _ _ (parse_i64 (c ∷ s)) i _ _ (no_word c s n) d h

nonempty : (s : Text) → s ≢ [] → is_empty s ≡ false
nonempty [] h = elim (h refl) [ ]
nonempty (c ∷ s) h = refl

digits_of : (n : ℕ) → All Digit (to_decimal n)
digits_of = All-to_decimal Digit (λ d h. (omega arith, omega arith))

parse_digits-to_decimal :
    (negative : Bool) (n : ℕ) → parse_digits negative (to_decimal n) ≡ in_range negative n
unfolding parse_digits
parse_digits-to_decimal negative n =
    rw
      (
        nonempty (to_decimal n) (to_decimal_nonempty n),
        all_digits-All (to_decimal n) (digits_of n),
        decimal_value-to_decimal n,
      )
      refl

in_range_natural : (n : ℕ) → n < 2 ^ 63 → in_range false n ≡ some (pos n)
in_range_natural n h = rw (lt_test n (2 ^ 63) h) refl
  where
    lt_test : (a b : ℕ) → a < b → ltb a b ≡ true
    lt_test a b h = ground arith

in_range_negative : (n : ℕ) → n < 2 ^ 63 → in_range true (suc n) ≡ some (negsuc n)
in_range_negative n h =
    rw (le_test (suc n) (2 ^ 63) (omega arith), zero_test n)
      (ap (λ m. some (negsuc m)) (pred_suc n))
  where
    le_test : (a b : ℕ) → a ≤ b → leb a b ≡ true
    le_test a b h = ground arith

    zero_test : (n : ℕ) → suc n == 0 ≡ false
    zero_test n = ground arith

    pred_suc : (n : ℕ) → suc n - 1 ≡ n
    pred_suc n = omega arith

parse_i64-digits : (c : ℕ) (s : Text) → Digit c → parse_i64 (c ∷ s) ≡ parse_digits false (c ∷ s)
unfolding parse_i64
parse_i64-digits c s (h, k) = rw (above c 45 (omega arith), above c 43 (omega arith)) refl
  where
    above : (c d : ℕ) → d < c → c == d ≡ false
    above c d h = ground arith

-- The number fits in 64 bits.
abbrev pub Fits64 : ℤ → Type 0
Fits64 (pos n) = n < 2 ^ 63
Fits64 (negsuc n) = n < 2 ^ 63

module _ (is_f64 : Text → Bool) where
  natural_text :
      (s : Text) (n : ℕ)
      → s ≢ []
      → All Digit s
      → parse_digits false s ≡ some (pos n)
      → plain_scalar is_f64 s ≡ int (pos n)
  natural_text [] n e d h = elim (e refl) [ ]
  natural_text (c ∷ s) n e (d, ds) h =
      plain_scalar-int is_f64 c s (pos n) (omega arith, omega arith) (starts c d)
        (parse_i64-digits c s d ∙ h)
    where
      starts : (c : ℕ) → Digit c → (is_digit c || c == b'-' || c == b'+' || c == b'.') ≡ true
      starts c (h, k) = ground arith

  -- Every integer of 64 bits, written in decimal with a minus sign if it is negative, is read as
  -- that integer, not as a string or a float.
  pub plain_scalar-signed_decimal :
      (i : ℤ) → Fits64 i → plain_scalar is_f64 (signed_decimal i) ≡ int i
  unfolding signed_decimal parse_i64
  plain_scalar-signed_decimal (pos n) h =
      natural_text (to_decimal n) n (to_decimal_nonempty n) (digits_of n)
        (parse_digits-to_decimal false n ∙ in_range_natural n h)
  plain_scalar-signed_decimal (negsuc n) h =
      plain_scalar-int is_f64 b'-' (to_decimal (suc n)) (negsuc n) (omega arith, omega arith) refl
        (parse_i64_negative (to_decimal (suc n))
          ∙ (parse_digits-to_decimal true (suc n) ∙ in_range_negative n h))
    where
      parse_i64_negative : (s : Text) → parse_i64 (b'-' ∷ s) ≡ parse_digits true s
      parse_i64_negative s = refl
