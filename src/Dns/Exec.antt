-- ===== src/Dns/Exec.antt =====
-- Code that returns an `Option` and may panic, or not return.
use dip_rust.Base.{
  ℕ, ◌+◌, ◌-◌, ◌≤◌, ◌<◌, ◌≡◌, refl, ap, ◌∙◌, Bool, true, false, ◌&&◌, none, some, List, [], ◌∷◌,
  ◌++◌, arith, leb, if◌then◌else◌, length, get_elem?, take, drop, length-append, take-length-append,
  drop-length-append, get_elem?-lt,
}

pub data Exec {ℓ} (A : Type ℓ) : Type ℓ where
  found : A → Exec A
  missing : Exec A
  panic : Exec A
  out_of_fuel : Exec A

infixl 5 ◌>>=◌
abbrev pub ◌>>=◌ {ℓ κ} : {A : Type ℓ} {B : Type κ} → Exec A → (A → Exec B) → Exec B
found a >>= f = f a
missing >>= f = missing
panic >>= f = panic
out_of_fuel >>= f = out_of_fuel

-- The code returns; what it finds has the property.
abbrev pub Returns : {A : Type 0} → (A → Type 0) → Exec A → Type 0
Returns P (found a) = P a
Returns P missing = Unit
Returns P panic = ⊥
Returns P out_of_fuel = ⊥

-- `data[i]` and `&data[from..to]`.
unfoldable pub index : List ℕ → ℕ → Exec ℕ
index bytes i = elim (get_elem? bytes i) [ none ↦ panic | some b ↦ found b ]

unfoldable pub slice : List ℕ → ℕ → ℕ → Exec (List ℕ)
slice bytes from to =
    if leb from to && leb to (length bytes)
    then found (take (to - from) (drop from bytes))
    else panic

pub index-found : (bytes : List ℕ) (i : ℕ) → i < length bytes → (b : ℕ) × (index bytes i ≡ found b)
unfolding index
index-found bytes i h = let (b, e) = get_elem?-lt bytes i h in (b, rw (e, index))

pub slice-found :
    (bytes : List ℕ) (from to : ℕ)
    → from ≤ to
    → to ≤ length bytes
    → slice bytes from to ≡ found (take (to - from) (drop from bytes))
unfolding slice
slice-found bytes from to h k = ground arith

-- Rules for code that returns.
module _ {A B : Type 0} (P : A → Type 0) (Q : B → Type 0) where
  pub Returns->>= :
      (m : Exec A) (f : A → Exec B)
      → Returns P m
      → ((a : A) → P a → Returns Q (f a))
      → Returns Q (m >>= f)
  Returns->>= (found a) f h k = k a h
  Returns->>= missing f h k = tt
  Returns->>= panic f h k = h
  Returns->>= out_of_fuel f h k = h

module _ {A : Type 0} (P : A → Type 0) where
  pub Returns-if :
      (b : Bool) (x y : Exec A)
      → (b ≡ true → Returns P x)
      → (b ≡ false → Returns P y)
      → Returns P (if b then x else y)
  Returns-if true x y h k = h refl
  Returns-if false x y h k = k refl

  pub Returns-found : (m : Exec A) (a : A) → Returns P m → m ≡ found a → P a
  Returns-found (found b) a h e = let q : b ≡ a = cc in rw (← q) h
  Returns-found missing a h e = cc
  Returns-found panic a h e = cc
  Returns-found out_of_fuel a h e = cc

pub index-Returns :
    (bytes : List ℕ) (i : ℕ) → i < length bytes → Returns (λ _. Unit {0}) (index bytes i)
index-Returns bytes i h = let (b, e) = index-found bytes i h in rw e tt

-- Nothing but that the code returns.
abbrev pub Anything {ℓ} : {A : Type ℓ} → A → Type 0
Anything _ = Unit {0}

-- Reading at the place where a part of the packet begins.
pub index-append :
    (pre : List ℕ) (b : ℕ) (post : List ℕ) → index (pre ++ (b ∷ post)) (length pre) ≡ found b
unfolding index
index-append [] b post = refl
index-append (c ∷ pre) b post = index-append pre b post

take_self : {A : Type 0} (n : ℕ) (xs ys : List A) → n ≡ length xs → take n (xs ++ ys) ≡ xs
take_self n xs ys e = rw e (take-length-append xs ys)

pub slice-append :
    (pre mid post : List ℕ) (from to : ℕ)
    → from ≡ length pre
    → to ≡ length pre + length mid
    → slice (pre ++ (mid ++ post)) from to ≡ found mid
slice-append pre mid post from to e f =
    slice-found (pre ++ (mid ++ post)) from to (omega arith)
      (omega (arith, length-append {0} pre (mid ++ post), length-append {0} mid post))
    ∙ ap found (rw (e, drop-length-append pre (mid ++ post)) (take_self _ mid post (omega arith)))
