-- ===== src/Db/Sql/Digits.antt =====
-- What the digits of bytes and of fractions of a second say.
use dip_rust.Base.{
  ℕ, zero, suc, ◌+◌, ◌-◌, ◌*◌, ◌/◌, ◌%◌, ◌^◌, ◌<◌, ◌≡◌, refl, ap, ◌∙◌, ◌≢◌, ◌⊎◌, inl, inr, false,
  List, [], ◌∷◌, ◌++◌, arith, leb, ◌==◌, if◌then◌else◌, ==_iff, Bool-cases, length, All,
  length-append,
}
use dip_rust.Db.Sql.{hex_digit, hex_encode, zeros, zero_padded, push_subsecond}
use dip_rust.Text.Decimal.{to_decimal, decimal_value, decimal_value-to_decimal, length-to_decimal}
use dip_rust.Text.{Text}

-- The value of a digit, `0` to `9` or `a` to `f`.
abbrev pub hex_value : ℕ → ℕ
hex_value c = if leb c b'9' then c - b'0' else (c - b'a') + 10

-- The bytes that pairs of digits spell.
unfoldable pub hex_decode : Text → List ℕ
hex_decode [] = []
hex_decode (c ∷ []) = []
hex_decode (c ∷ d ∷ s) = (hex_value c * 16 + hex_value d) ∷ hex_decode s

hex_value-hex_digit : (d : ℕ) → d < 16 → hex_value (hex_digit d) ≡ d
hex_value-hex_digit d h = ground arith

-- The digits of bytes are two for each byte, and spell the bytes.
pub hex_decode-hex_encode :
    (bytes : List ℕ)
    → All (λ b. b < 256) bytes
    → (hex_decode (hex_encode bytes) ≡ bytes) × (length (hex_encode bytes) ≡ 2 * length bytes)
unfolding hex_decode hex_encode
hex_decode-hex_encode [] h = (refl, refl)
hex_decode-hex_encode (b ∷ bytes) (k, h) =
    let (same, twice) = hex_decode-hex_encode bytes h in
    (
      rw
          (
            hex_value-hex_digit (b / 16) (omega arith),
            hex_value-hex_digit (b % 16) (omega arith),
            same,
          )
          (ap (λ x. x ∷ bytes) (omega arith)),
      omega (arith, twice),
    )

length-zeros : (n : ℕ) → length (zeros n) ≡ n
unfolding zeros
length-zeros zero = refl
length-zeros (suc n) = omega (arith, length-zeros n)

decimal_value-zeros : (n : ℕ) (s : Text) → decimal_value 0 (zeros n ++ s) ≡ decimal_value 0 s
unfolding zeros decimal_value
decimal_value-zeros zero s = refl
decimal_value-zeros (suc n) s = decimal_value-zeros n s

zero_padded_lem :
    (w n : ℕ)
    → 0 < w
    → n < 10 ^ w
    → (length (zero_padded w n) ≡ w) × (decimal_value 0 (zero_padded w n) ≡ n)
unfolding zero_padded
zero_padded_lem w n k h = (
  omega (
    arith,
    length-append {0} (zeros (w - length (to_decimal n))) (to_decimal n),
    length-zeros (w - length (to_decimal n)),
    length-to_decimal w n k h,
  ),
  decimal_value-zeros (w - length (to_decimal n)) (to_decimal n) ∙ decimal_value-to_decimal n,
)

-- What follows the seconds of a time, whose nanoseconds are less than a second: nothing if there
-- are none, and else a dot and three, six or nine digits, as few as tell the nanoseconds.
pub push_subsecond_lem :
    (out : Text) (nanos : ℕ)
    → 0 < nanos
    → nanos < 1_000_000_000
    → (push_subsecond out 0 ≡ out)
      × ((w : ℕ) × (digits : Text) × (push_subsecond out nanos ≡ out ++ (b'.' ∷ digits))
          × (length digits ≡ w)
          × (decimal_value 0 digits * 10 ^ (9 - w) ≡ nanos)
          × ((w ≡ 3) ⊎ (((w ≡ 6) × (nanos % 1_000_000 ≢ 0)) ⊎ ((w ≡ 9) × (nanos % 1_000 ≢ 0)))))
unfolding push_subsecond
push_subsecond_lem out nanos k h =
    let nonzero : (nanos == 0) ≡ false = ground arith in
    let milli = zero_padded_lem 3 (nanos / 1_000_000) (omega arith) (omega arith) in
    let micro = zero_padded_lem 6 (nanos / 1_000) (omega arith) (omega arith) in
    let nano = zero_padded_lem 9 nanos (omega arith) (omega arith) in
    (
      refl,
      elim (Bool-cases (nanos % 1_000_000 == 0)) [
        | inl m ↦
            let e = (==_iff (nanos % 1_000_000) 0).0 m in
            (
              3,
              zero_padded 3 (nanos / 1_000_000),
              rw (nonzero, m),
              milli.0,
              omega (arith, milli.1, e),
              inl refl,
            )
        | inr m ↦
            let not_milli : nanos % 1_000_000 ≢ 0 =
              λ e. cc (m, (==_iff (nanos % 1_000_000) 0).1 e) in
            elim (Bool-cases (nanos % 1_000 == 0)) [
              | inl u ↦
                  let e = (==_iff (nanos % 1_000) 0).0 u in
                  (
                    6,
                    zero_padded 6 (nanos / 1_000),
                    rw (nonzero, m, u),
                    micro.0,
                    omega (arith, micro.1, e),
                    inr (inl (refl, not_milli)),
                  )
              | inr u ↦
                  let not_micro : nanos % 1_000 ≢ 0 = λ e. cc (u, (==_iff (nanos % 1_000) 0).1 e) in
                  (
                    9,
                    zero_padded 9 nanos,
                    rw (nonzero, m, u),
                    nano.0,
                    omega (arith, nano.1),
                    inr (inr (refl, not_micro)),
                  )
            ]
      ],
    )
