-- ===== src/Yaml/Flow/Tokens.antt =====
-- The length of what the token readers of src/utils/yaml.rs leave of their text.
use dip_rust.Base.{
  ℕ, ◌≤◌, ◌≡◌, refl, inl, inr, Bool, Option, none, some, [], ◌∷◌, ◌++◌, arith, ◌==◌, Bool-cases,
  length,
}
use dip_rust.Text.{Text, codes, trim_start_by}
use dip_rust.Yaml.Result.{Result, ok, failed, out_of_fuel, ◌>>=◌, Ends, Ends->>=, Ends-if}
use dip_rust.Yaml.Scan.{cons_token, take_quoted, take_single, take_double, unescape}
use dip_rust.Yaml.Flow.{take_plain_token, ends_token}

-- What is left of the text has at most `n` characters.
abbrev pub Left : {A : Type 0} → ℕ → A × Text → Type 0
Left n r = length r.1 ≤ n

pub length-trim_start_by : (test : ℕ → Bool) (s : Text) → length (trim_start_by test s) ≤ length s
unfolding trim_start_by
length-trim_start_by test [] = omega arith
length-trim_start_by test (c ∷ s) = elim (Bool-cases (test c)) [
  | inl h ↦ rw h (omega (arith, length-trim_start_by test s))
  | inr h ↦ rw h (omega arith)
]

-- A step that only builds the value keeps the bound, or a larger one.
module _ {A B : Type 0} (g : A × Text → B × Text) (same : (r : A × Text) → (g r).1 ≡ r.1) where
  pub Left-map :
      (n k : ℕ)
      → n ≤ k
      → (m : Result (A × Text)) → Ends (Left n) m
      → Ends (Left k) (m >>= λ r. ok (g r))
  Left-map n k le m h = Ends->>= (Left n) (Left k) m _ h (λ r b. rw (same r) (omega arith))

module _ {A : Type 0} (n k : ℕ) (le : n ≤ k) where
  pub Left-weaken : (m : Result (A × Text)) → Ends (Left n) m → Ends (Left k) m
  Left-weaken (ok r) h = omega arith
  Left-weaken (failed line_no msg) h = tt
  Left-weaken out_of_fuel h = h

abbrev pub cons_same : (c : ℕ) (r : Text × Text) → (cons_token c r).1 ≡ r.1
cons_same c (token, rest) = refl

pub Left-take_single : (line_no : ℕ) (s : Text) → Ends (Left (length s)) (take_single line_no s)
unfolding take_single
Left-take_single line_no [] = tt
Left-take_single line_no (c ∷ []) = Ends-if (Left 1) (c == b'\'') _ _ (λ _. omega arith) (λ _. tt)
Left-take_single line_no (c ∷ d ∷ s) =
    let P = Left (length (c ∷ d ∷ s)) in
    Ends-if P (c == b'\'') _ _
      (λ _.
        Ends-if P (d == b'\'') _ _
          (λ _.
            Left-map (cons_token b'\'') (cons_same b'\'') (length s) _ (omega arith) _
              (Left-take_single line_no s))
          (λ _. omega arith))
      (λ _.
        Left-map (cons_token c) (cons_same c) (length (d ∷ s)) _ (omega arith) _
          (Left-take_single line_no (d ∷ s)))

-- An escape, whether it is known or not.
Left-escape :
    (k line_no d : ℕ) (e : Option ℕ) (s : Text)
    → length s ≤ k
    → Ends (Left (length s)) (take_double line_no s)
    → Ends (Left k) (elim e [
      | some e ↦ take_double line_no s >>= λ r. ok (cons_token e r)
      | none ↦ failed line_no (codes "unsupported escape '\\" ++ (d ∷ codes "'"))
    ])
Left-escape k line_no d none s le h = tt
Left-escape k line_no d (some e) s le h = Left-map (cons_token e) (cons_same e) (length s) k le _ h

pub Left-take_double : (line_no : ℕ) (s : Text) → Ends (Left (length s)) (take_double line_no s)
unfolding take_double
Left-take_double line_no [] = tt
Left-take_double line_no (c ∷ []) = Ends-if (Left 1) (c == b'"') _ _ (λ _. omega arith) (λ _. tt)
Left-take_double line_no (c ∷ d ∷ s) =
    let P = Left (length (c ∷ d ∷ s)) in
    Ends-if P (c == b'"') _ _ (λ _. omega arith)
      (λ _.
        Ends-if P (c == b'\\') _ _
          (λ _. Left-escape _ line_no d (unescape d) s (omega arith) (Left-take_double line_no s))
          (λ _.
            Left-map (cons_token c) (cons_same c) (length (d ∷ s)) _ (omega arith) _
              (Left-take_double line_no (d ∷ s))))

pub Left-take_quoted :
    (line_no q : ℕ) (s : Text) → Ends (Left (length s)) (take_quoted line_no (q ∷ s))
unfolding take_quoted
Left-take_quoted line_no q s =
    Ends-if (Left (length s)) (q == b'\'') _ _ (λ _. Left-take_single line_no s)
      (λ _. Left-take_double line_no s)

pub Left-take_plain_token : (s : Text) → Left (length s) (take_plain_token s)
unfolding take_plain_token
Left-take_plain_token [] = omega arith
Left-take_plain_token (c ∷ s) = elim (Bool-cases (ends_token c s)) [
  | inl h ↦ rw h (omega arith)
  | inr h ↦ rw (h, cons_same c (take_plain_token s)) (omega (arith, Left-take_plain_token s))
]
