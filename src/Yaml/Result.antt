-- ===== src/Yaml/Result.antt =====
-- The outcome of a part of the reader, and what a theorem says of it.
use dip_rust.Base.{ℕ, ◌≡◌, refl, ◌≢◌, Bool, true, false, if◌then◌else◌}
use dip_rust.Text.{Text}

-- A value, or an error with its line and message; `out_of_fuel` has no counterpart in the program.
pub data Result {ℓ} (A : Type ℓ) : Type ℓ where
  ok : A → Result A
  failed : ℕ → Text → Result A
  out_of_fuel : Result A

infixl 5 ◌>>=◌
abbrev pub ◌>>=◌ {ℓ κ} : {A : Type ℓ} {B : Type κ} → Result A → (A → Result B) → Result B
ok a >>= f = f a
failed line_no msg >>= f = failed line_no msg
out_of_fuel >>= f = out_of_fuel

-- The run ends within its fuel, and its value, if it has one, has the property.
abbrev pub Ends : {A : Type 0} → (A → Type 0) → Result A → Type 0
Ends P (ok a) = P a
Ends P (failed line_no msg) = Unit
Ends P out_of_fuel = ⊥

module _ {A B : Type 0} (P : A → Type 0) (Q : B → Type 0) where
  pub Ends->>= :
      (m : Result A) (f : A → Result B)
      → Ends P m
      → ((a : A) → P a → Ends Q (f a))
      → Ends Q (m >>= f)
  Ends->>= (ok a) f h k = k a h
  Ends->>= (failed line_no msg) f h k = tt
  Ends->>= out_of_fuel f h k = h

module _ {A : Type 0} (P : A → Type 0) where
  pub Ends-if :
      (b : Bool) (x y : Result A)
      → (b ≡ true → Ends P x)
      → (b ≡ false → Ends P y)
      → Ends P (if b then x else y)
  Ends-if true x y h k = h refl
  Ends-if false x y h k = k refl

  pub Ends-ne_out_of_fuel : (m : Result A) → Ends P m → m ≢ out_of_fuel
  Ends-ne_out_of_fuel (ok a) h e = cc
  Ends-ne_out_of_fuel (failed line_no msg) h e = cc
  Ends-ne_out_of_fuel out_of_fuel h e = h
