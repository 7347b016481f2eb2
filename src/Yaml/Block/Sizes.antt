-- ===== src/Yaml/Block/Sizes.antt =====
-- The size of the lines that are left, which bounds the fuel of the block parser.
use dip_rust.Base.{
  ℕ, suc, ◌+◌, ◌≤◌, ◌≡◌, inl, inr, Bool, true, false, ◌&&◌, ◌||◌, Option, none, some, List, [], ◌∷◌,
  arith, ◌==◌, if◌then◌else◌, Bool-cases, length,
}
use dip_rust.Text.{Text, is_empty, is_whitespace, trim_end_by, trim_start, trim_end, before}
use dip_rust.Yaml.Result.{Result, ok, failed, out_of_fuel, ◌>>=◌, Ends, Ends->>=, Ends-if}
use dip_rust.Yaml.Scan.{
  head_is, cons_token, take_quoted, is_quote, find_colon, key_end, plain_key, split_key, split_word,
}
use dip_rust.Yaml.Flow.Tokens.{Left, length-trim_start_by, Left-take_quoted, cons_same}
use dip_rust.Yaml.Lines.{Line, State, skip_blank}

abbrev pub lines_size : List Line → ℕ
lines_size [] = 0
lines_size (l ∷ ls) = suc (length (Line.text l)) + lines_size ls

abbrev pub size : State → ℕ
size st = lines_size (State.left st)

-- The state that is left has a size of at most `n`.
abbrev pub Fits : {A : Type 0} → ℕ → A × State → Type 0
Fits n r = size r.1 ≤ n

pub lines_size-skip_blank : (ls : List Line) → lines_size (skip_blank ls) ≤ lines_size ls
unfolding skip_blank
lines_size-skip_blank [] = omega arith
lines_size-skip_blank (l ∷ ls) = elim (Bool-cases (is_empty (Line.text l))) [
  | inl h ↦ rw h (omega (arith, lines_size-skip_blank ls))
  | inr h ↦ rw h (omega arith)
]

-- Conditions on a result carry over to a larger size.
module _ {A : Type 0} (n k : ℕ) (le : n ≤ k) where
  pub Fits-weaken : (m : Result (A × State)) → Ends (Fits n) m → Ends (Fits k) m
  Fits-weaken (ok r) h = omega arith
  Fits-weaken (failed line_no msg) h = tt
  Fits-weaken out_of_fuel h = h

-- A step without a state that is not about what it yields.
abbrev pub Anything : {A : Type 0} → A → Type 0
Anything a = Unit

pub Ends-Anything : {A : Type 0} (P : A → Type 0) (m : Result A) → Ends P m → Ends Anything m
Ends-Anything P (ok a) h = tt
Ends-Anything P (failed line_no msg) h = tt
Ends-Anything P out_of_fuel h = h

module _ {A B : Type 0} (g : A × State → B × State) (n : ℕ) where
  -- A last step that builds the value and adds anchors.
  pub Fits-map :
      ((r : A × State) → size (g r).1 ≡ size r.1)
      → (m : Result (A × State)) → Ends (Fits n) m
      → Ends (Fits n) (m >>= λ r. ok (g r))
  Fits-map same m h = Ends->>= (Fits n) (Fits n) m _ h (λ r b. let e = same r in omega arith)

pub length-split_word : (s : Text) → suc (length (split_word s).1) ≤ suc (length s)
unfolding split_word
length-split_word [] = omega arith
length-split_word (c ∷ s) = elim (Bool-cases (c == b' ')) [
  | inl h ↦ rw h (omega (arith, length-trim_start_by is_whitespace (c ∷ s)))
  | inr h ↦ rw (h, cons_same c (split_word s)) (omega (arith, length-split_word s))
]

-- The key and the `:` are longer than the rest by two characters or more.
abbrev pub Shorter : ℕ → Option (Text × Text) → Type 0
Shorter n none = Unit
Shorter n (some r) = length r.1 + 2 ≤ n

abbrev Exact : ℕ → Option (Text × Text) → Type 0
Exact n none = Unit
Exact n (some r) = length r.1 + length r.0 + 1 ≡ n

Exact-step :
    (b : Bool) (c : ℕ) (s : Text) (o : Option (Text × Text))
    → Exact (length s) o
    → Exact
        (suc (length s))
        (if b then some ([], s) else elim o [ none ↦ none | some r ↦ some (cons_token c r) ])
Exact-step true c s o h = omega arith
Exact-step false c s none h = tt
Exact-step false c s (some (before, rest)) h = omega arith

Exact-find_colon : (s : Text) → Exact (length s) (find_colon s)
unfolding find_colon
Exact-find_colon [] = tt
Exact-find_colon (c ∷ s) = Exact-step _ c s (find_colon s) (Exact-find_colon s)

Shorter-if :
    (b : Bool) (n : ℕ) (r : Text × Text)
    → length r.1 + 2 ≤ n
    → Shorter n (if b then none else some r)
Shorter-if true n r h = tt
Shorter-if false n r h = h

Shorter-plain_key :
    (n : ℕ) (r : Text × Text) → length r.1 + length r.0 + 1 ≡ n → Shorter n (plain_key r)
unfolding trim_end_by
Shorter-plain_key n ([], rest) h = tt
Shorter-plain_key n (c ∷ b, rest) h =
    Shorter-if (is_empty (trim_end (c ∷ b))) n (trim_end (c ∷ b), trim_start rest)
      (omega (arith, length-trim_start_by is_whitespace rest))

Shorter-key_end : (n : ℕ) (key s : Text) → suc (length s) ≤ n → Shorter n (key_end key s)
unfolding key_end
Shorter-key_end n key [] h = tt
Shorter-key_end n key (c ∷ rest) h =
    elim (Bool-cases (c == b':' && (is_empty rest || head_is (λ d. d == b' ') rest))) [
      | inl e ↦ rw e (omega (arith, length-trim_start_by is_whitespace rest))
      | inr e ↦ rw e tt
    ]

Shorter-colon :
    (n line_no : ℕ) (o : Option (Text × Text))
    → Exact n o
    → Ends (Shorter n) (elim o [ none ↦ ok none | some r ↦ ok (plain_key r) ])
Shorter-colon n line_no none h = tt
Shorter-colon n line_no (some r) h = Shorter-plain_key n r h

Shorter-quoted :
    (line_no c : ℕ) (s : Text)
    → Ends
        (Shorter (suc (length s)))
        (take_quoted line_no (c ∷ s) >>= λ r. ok (key_end r.0 (trim_start r.1)))
Shorter-quoted line_no c s =
    Ends->>= (Left (length s)) (Shorter (suc (length s))) (take_quoted line_no (c ∷ s)) _
      (Left-take_quoted line_no c s)
      (λ r h.
        let d = length-trim_start_by is_whitespace r.1 in
        Shorter-key_end _ r.0 (trim_start r.1) (omega arith))

pub Shorter-split_key :
    (text : Text) (line_no : ℕ) → Ends (Shorter (length text)) (split_key text line_no)
unfolding split_key find_colon
Shorter-split_key [] line_no = tt
Shorter-split_key (c ∷ s) line_no =
    let P = Shorter (length (c ∷ s)) in
    Ends-if P (c == b'[' || c == b'{' || c == b'#') _ _ (λ _. tt)
      (λ _.
        Ends-if P (is_quote c) _ _ (λ _. Shorter-quoted line_no c s)
          (λ _. Shorter-colon _ line_no _ (Exact-find_colon (c ∷ s))))
