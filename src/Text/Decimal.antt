-- ===== src/Text/Decimal.antt =====
-- `to_string` of an unsigned number, `{:0w$}`, and the value of digits.
use mathlib.Core.Logic.{dite}
use mathlib.Core.WellFounded.{Acc, WellFounded}
use native.Mathlib.Decide.{dec_lt}
use native.Mathlib.Nat.{pow-suc}
use dip_rust.Base.{
  ℤ, pos, negsuc, ℕ, zero, suc, ◌+◌, ◌-◌, ◌*◌, ◌/◌, ◌%◌, ◌^◌, ◌≤◌, ◌<◌, ◌≡◌, refl, ap, ◌∙◌, inl,
  inr, [], ◌∷◌, ◌++◌, arith, ◌==◌, if◌then◌else◌, ==_iff, Bool-cases, length, All, ◌≢◌, false,
  subst, sym,
}
use dip_rust.Text.{Text}

Acc-below : (k n : ℕ) → n < k → Acc ◌<◌ n
Acc-below zero n h = elim h [ ]
Acc-below (suc k) n h = Acc.intro n (λ m hm. Acc-below k m (omega arith))

lt_wf : WellFounded ◌<◌
unfolding Acc-below
lt_wf = record { apply = λ n. Acc-below (suc n) n (omega arith) }

tenth_lt : {n : ℕ} → 0 < n → n / 10 < n
tenth_lt h = omega arith

digits_acc : (n : ℕ) → Acc ◌<◌ n → Text → Text
digits_acc n (Acc.intro _ smaller) out =
    dite (dec_lt 0 n)
      (λ h. digits_acc (n / 10) (smaller (n / 10) (tenth_lt h)) ((b'0' + n % 10) ∷ out)) (λ _. out)

digits_onto : ℕ → Text → Text
digits_onto n = digits_acc n (lt_wf.apply n)

unfoldable pub to_decimal : ℕ → Text
unfolding digits_onto digits_acc lt_wf dec_lt tenth_lt
to_decimal n = if n == 0 then b'0' ∷ [] else digits_onto n []

-- `to_string` of a signed number.
unfoldable pub signed_decimal : ℤ → Text
signed_decimal (pos n) = to_decimal n
signed_decimal (negsuc n) = b'-' ∷ to_decimal (suc n)

-- Exactly `w` digits, the last ones of the number.
unfoldable pub padded : ℕ → ℕ → Text
padded zero n = []
padded (suc w) n = padded w (n / 10) ++ (b'0' + n % 10) ∷ []

-- The number that digits spell behind `n`.
unfoldable pub decimal_value : ℕ → Text → ℕ
decimal_value n [] = n
decimal_value n (c ∷ s) = decimal_value (n * 10 + (c - b'0')) s

pub decimal_value-append :
    (s t : Text) (n : ℕ) → decimal_value n (s ++ t) ≡ decimal_value (decimal_value n s) t
unfolding decimal_value
decimal_value-append [] t n = refl
decimal_value-append (c ∷ s) t n = decimal_value-append s t (n * 10 + (c - b'0'))

-- Padding keeps a number that has room.
pub decimal_value-padded : (w n : ℕ) → n < 10 ^ w → decimal_value 0 (padded w n) ≡ n
unfolding decimal_value padded
decimal_value-padded zero n h = omega arith
decimal_value-padded (suc w) n h =
    decimal_value-append (padded w (n / 10)) ((b'0' + n % 10) ∷ []) 0
    ∙ omega (arith, decimal_value-padded w (n / 10) (omega (arith, pow-suc 10 w)))

digits_acc-value :
    (n : ℕ) (a : Acc ◌<◌ n) (out : Text)
    → decimal_value 0 (digits_acc n a out) ≡ decimal_value n out
unfolding digits_acc decimal_value
digits_acc-value n (Acc.intro _ smaller) out =
    elim (dec_lt 0 n)
      as (λ d.
        decimal_value 0 (
          dite d (λ h. digits_acc (n / 10) (smaller (n / 10) (tenth_lt h)) ((b'0' + n % 10) ∷ out))
            (λ _. out))
        ≡ decimal_value n out) [
          | yes h ↦
              digits_acc-value (n / 10) (smaller (n / 10) (tenth_lt h)) ((b'0' + n % 10) ∷ out)
              ∙ ap (λ m. decimal_value m out) (omega arith)
          | no h ↦ ap (λ m. decimal_value m out) (omega arith)
        ]

digits_acc-length :
    (w n : ℕ) (a : Acc ◌<◌ n) (out : Text)
    → n < 10 ^ w
    → length (digits_acc n a out) ≤ w + length out
unfolding digits_acc
digits_acc-length w n (Acc.intro _ smaller) out h =
    elim (dec_lt 0 n)
      as (λ d.
        length (
          dite d (λ h. digits_acc (n / 10) (smaller (n / 10) (tenth_lt h)) ((b'0' + n % 10) ∷ out))
            (λ _. out))
        ≤ w + length out) [
          | yes k ↦
              elim w
                  as (λ v.
                    n < 10 ^ v
                    → length (
                        digits_acc (n / 10) (smaller (n / 10) (tenth_lt k)) ((b'0' + n % 10) ∷ out))
                      ≤ v + length out) [
                        | zero ↦ λ small. absurd (omega arith)
                        | suc v ↦ λ small. omega (
                          arith,
                          digits_acc-length v (n / 10) (smaller (n / 10) (tenth_lt k))
                              ((b'0' + n % 10) ∷ out) (omega (arith, pow-suc 10 v)),
                        )
                      ]
                h
          | no k ↦ omega arith
        ]

-- The digits of a number spell it, and are no more than it needs.
pub decimal_value-to_decimal : (n : ℕ) → decimal_value 0 (to_decimal n) ≡ n
unfolding to_decimal digits_onto decimal_value
decimal_value-to_decimal n = elim (Bool-cases (n == 0)) [
  | inl e ↦ rw e (omega (arith, (==_iff n 0).0 e))
  | inr f ↦ rw f (digits_acc-value n (lt_wf.apply n) [])
]

pub length-to_decimal : (w n : ℕ) → 0 < w → n < 10 ^ w → length (to_decimal n) ≤ w
unfolding to_decimal digits_onto
length-to_decimal w n k h = elim (Bool-cases (n == 0)) [
  | inl e ↦ rw e (omega arith)
  | inr f ↦ rw f (omega (arith, digits_acc-length w n (lt_wf.apply n) [] h))
]

-- Whatever holds of all digits holds of the digits of a number, of which there is one or more.
module _ (P : ℕ → Type 0) (digit : (d : ℕ) → d < 10 → P (b'0' + d)) where
  digits_acc-All : (n : ℕ) (a : Acc ◌<◌ n) (out : Text) → All P out → All P (digits_acc n a out)
  unfolding digits_acc
  digits_acc-All n (Acc.intro _ smaller) out h =
      elim (dec_lt 0 n)
        as (λ d. All P (
          dite d (λ h. digits_acc (n / 10) (smaller (n / 10) (tenth_lt h)) ((b'0' + n % 10) ∷ out))
            (λ _. out))) [
              | yes k ↦
                  digits_acc-All (n / 10) (smaller (n / 10) (tenth_lt k)) ((b'0' + n % 10) ∷ out)
                    (digit (n % 10) (omega arith), h)
              | no k ↦ h
            ]

  pub All-to_decimal : (n : ℕ) → All P (to_decimal n)
  unfolding to_decimal digits_onto
  All-to_decimal n = elim (Bool-cases (n == 0)) [
    | inl e ↦ rw e (digit 0 (omega arith), tt)
    | inr f ↦ rw f (digits_acc-All n (lt_wf.apply n) [] tt)
  ]

pub to_decimal_nonempty : (n : ℕ) → to_decimal n ≢ []
unfolding to_decimal decimal_value
to_decimal_nonempty n e = elim (Bool-cases (n == 0)) [
  | inl z ↦ is_zero [] (subst (λ b. (if b then b'0' ∷ [] else digits_onto n []) ≡ []) z e)
  | inr f ↦ nonzero (sym (decimal_value-to_decimal n) ∙ ap (decimal_value 0) e) f
]
  where
    is_zero : (s : Text) → b'0' ∷ s ≡ [] → ⊥
    is_zero s h = cc

    nonzero : n ≡ 0 → n == 0 ≡ false → ⊥
    nonzero h f = ground arith
