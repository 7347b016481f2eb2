-- ===== src/Yaml/Flow/Ending.antt =====
-- The fuel of the parser of flow collections, `FlowParser` of src/utils/yaml.rs.
use dip_rust.Yaml.Flow.Tokens.{
  Left, length-trim_start_by, Left-map, Left-weaken, Left-take_quoted, Left-take_plain_token,
}
use dip_rust.Base.{
  ℕ, zero, suc, ◌+◌, ◌*◌, ◌≤◌, ◌<◌, refl, Bool, true, false, Option, none, some, [], ◌∷◌, ◌++◌,
  arith, ◌==◌, length,
}
use dip_rust.Text.{Text, codes, trim}
use dip_rust.Json.{Value, Items, Fields, no_fields, insert}
use dip_rust.Yaml.Result.{Result, ok, failed, ◌>>=◌, Ends, Ends->>=, Ends-if}
use dip_rust.Yaml.Scan.{take_quoted, is_quote}
use dip_rust.Yaml.Flow.{
  External, Anchors, anchor, alias_value, skip_spaces, take_plain_token, Opening, sequence, mapping,
  quoted, alias, plain, opening, Next, more, close, other, next, flow_key, flow_alias, value_open,
  value_at, seq_go, seq_next, seq_item, seq_at, map_go, map_next, map_value, map_colon, map_key,
  map_at, parse_value, parse_seq, parse_map, plain_token, flow_value,
}

-- On texts with fewer than `k` characters, the call ends and leaves no more than it was given.
abbrev pub Below : {A : Type 0} → ℕ → (Text → Result (A × Text)) → Type 0
Below k f = (s : Text) → length s < k → Ends (Left (length s)) (f s)

Left-flow_key : (line_no c : ℕ) (s : Text) → Ends (Left (length (c ∷ s))) (flow_key line_no (c ∷ s))
unfolding flow_key
Left-flow_key line_no c s =
    Ends-if (Left (length (c ∷ s))) (is_quote c) _ _
      (λ _.
        Left-weaken (length s) _ (omega arith) (take_quoted line_no (c ∷ s))
          (Left-take_quoted line_no c s))
      (λ _. Left-take_plain_token (c ∷ s))

module _ (ext : External) (line_no : ℕ) (anchors : Anchors) where
  Left-flow_alias :
      (k : ℕ) (r : Text × Text) → Left k r → Ends (Left k) (flow_alias ext line_no anchors r)
  unfolding flow_alias alias_value
  Left-flow_alias k (name, rest) h = found (anchor (trim name) anchors)
    where
      found :
          (v : Option Value)
          → Ends (Left k) (
              elim v [
                | some v ↦ ok v
                | none ↦ failed line_no (codes "unknown anchor '" ++ (trim name ++ codes "'"))
              ]
              >>= λ v. ok (v, rest))
      found none = tt
      found (some v) = h

  module _ (seq : Text → Result (Items × Text)) (entries : Text → Result (Fields × Text)) where
    Below-value_open :
        (o : Opening) (c : ℕ) (s : Text) (k : ℕ)
        → length s < k
        → Below k seq
        → Below k entries
        → Ends (Left (suc (length s))) (value_open ext line_no anchors seq entries o c s)
    unfolding value_open plain_token
    Below-value_open sequence c s k h hs he =
        Left-map _ (λ r. refl) (length s) _ (omega arith) (seq s) (hs s h)
    Below-value_open mapping c s k h hs he =
        Left-map _ (λ r. refl) (length s) _ (omega arith) (entries s) (he s h)
    Below-value_open quoted c s k h hs he =
        Left-map _ (λ r. refl) (length s) _ (omega arith) (take_quoted line_no (c ∷ s))
          (Left-take_quoted line_no c s)
    Below-value_open alias c s k h hs he =
        Left-flow_alias _ (take_plain_token s) (omega (arith, Left-take_plain_token s))
    Below-value_open plain c s k h hs he = Left-take_plain_token (c ∷ s)

    Below-value_at :
        (k : ℕ)
        → Below k seq
        → Below k entries
        → Below (suc k) (value_at ext line_no anchors seq entries)
    unfolding value_at
    Below-value_at k hs he [] h = tt
    Below-value_at k hs he (c ∷ s) h = Below-value_open (opening c) c s k (omega arith) hs he

  module _ (value : Text → Result (Value × Text)) where
    module _ (seq : Text → Result (Items × Text)) where
      Below-seq_go :
          (v : Value) (n : Next) (c : ℕ) (s : Text) (k : ℕ)
          → length s < k
          → Below k seq
          → Ends (Left (length s)) (seq_go ext line_no anchors value seq v n c s)
      unfolding seq_go
      Below-seq_go v more c s k h hs =
          Left-map _ (λ r. refl) (length s) _ (omega arith) (seq s) (hs s h)
      Below-seq_go v close c s k h hs = omega arith
      Below-seq_go v other c s k h hs = tt

      Below-seq_next :
          (v : Value) (s : Text) (k : ℕ)
          → length s < suc k
          → Below k seq
          → Ends (Left (length s)) (seq_next ext line_no anchors value seq v s)
      unfolding seq_next
      Below-seq_next v [] k h hs = tt
      Below-seq_next v (c ∷ s) k h hs =
          Left-weaken (length s) _ (omega arith) _
            (Below-seq_go v (next b']' c) c s k (omega arith) hs)

      Below-seq_item :
          (closed : Bool) (c : ℕ) (s : Text) (k : ℕ)
          → length s < k
          → Below (suc k) value
          → Below k seq
          → Ends (Left (suc (length s))) (seq_item ext line_no anchors value seq closed c s)
      unfolding seq_item
      Below-seq_item true c s k h hv hs = omega arith
      Below-seq_item false c s k h hv hs =
          Ends->>= (Left (suc (length s))) (Left (suc (length s))) (value (c ∷ s)) _
            (hv (c ∷ s) (omega arith))
            (λ r b.
              let d = length-trim_start_by (λ c. c == b' ') r.1 in
              Left-weaken (length (skip_spaces r.1)) _ (omega arith) _
                (Below-seq_next r.0 (skip_spaces r.1) k (omega arith) hs))

      Below-seq_at :
          (k : ℕ)
          → Below (suc k) value
          → Below k seq
          → Below (suc k) (seq_at ext line_no anchors value seq)
      unfolding seq_at
      Below-seq_at k hv hs [] h = tt
      Below-seq_at k hv hs (c ∷ s) h = Below-seq_item (c == b']') c s k (omega arith) hv hs

    module _ (entries : Fields → Text → Result (Fields × Text)) where
      Below-map_go :
          (known : Fields) (n : Next) (c : ℕ) (s : Text) (k : ℕ)
          → length s < k
          → Below k (entries known)
          → Ends (Left (length s)) (map_go ext line_no anchors value entries known n c s)
      unfolding map_go
      Below-map_go known more c s k h hs = hs s h
      Below-map_go known close c s k h hs = omega arith
      Below-map_go known other c s k h hs = tt

      Below-map_next :
          (known : Fields) (s : Text) (k : ℕ)
          → length s < suc k
          → Below k (entries known)
          → Ends (Left (length s)) (map_next ext line_no anchors value entries known s)
      unfolding map_next
      Below-map_next known [] k h hs = tt
      Below-map_next known (c ∷ s) k h hs =
          Left-weaken (length s) _ (omega arith) _
            (Below-map_go known (next b'}' c) c s k (omega arith) hs)

      Below-map_value :
          (known : Fields) (key : Text) (colon : Bool) (s : Text) (k : ℕ)
          → length s < k
          → Below k value
          → ((m : Fields) → Below k (entries m))
          → Ends (Left (length s)) (map_value ext line_no anchors value entries known key colon s)
      unfolding map_value
      Below-map_value known key false s k h hv hs = tt
      Below-map_value known key true s k h hv hs =
          Ends->>= (Left (length s)) (Left (length s)) (value s) _ (hv s h) (λ r b.
            let d = length-trim_start_by (λ c. c == b' ') r.1 in
            Left-weaken (length (skip_spaces r.1)) _ (omega arith) _
              (Below-map_next (insert key r.0 known) (skip_spaces r.1) k (omega arith) (hs _)))

      Below-map_colon :
          (known : Fields) (key : Text) (s : Text) (k : ℕ)
          → length s < suc k
          → Below k value
          → ((m : Fields) → Below k (entries m))
          → Ends (Left (length s)) (map_colon ext line_no anchors value entries known key s)
      unfolding map_colon
      Below-map_colon known key [] k h hv hs = tt
      Below-map_colon known key (c ∷ s) k h hv hs =
          Left-weaken (length s) _ (omega arith) _
            (Below-map_value known key (c == b':') s k (omega arith) hv hs)

      Below-map_key :
          (known : Fields) (closed : Bool) (c : ℕ) (s : Text) (k : ℕ)
          → length s < k
          → Below k value
          → ((m : Fields) → Below k (entries m))
          → Ends
              (Left (suc (length s)))
              (map_key ext line_no anchors value entries known closed c s)
      unfolding map_key
      Below-map_key known true c s k h hv hs = omega arith
      Below-map_key known false c s k h hv hs =
          Ends->>= (Left (suc (length s))) (Left (suc (length s))) (flow_key line_no (c ∷ s)) _
            (Left-flow_key line_no c s)
            (λ r b.
              let d = length-trim_start_by (λ c. c == b' ') r.1 in
              Left-weaken (length (skip_spaces r.1)) _ (omega arith) _
                (Below-map_colon known r.0 (skip_spaces r.1) k (omega arith) hv hs))

      Below-map_at :
          (known : Fields) (k : ℕ)
          → Below k value
          → ((m : Fields) → Below k (entries m))
          → Below (suc k) (map_at ext line_no anchors value entries known)
      unfolding map_at
      Below-map_at known k hv hs [] h = tt
      Below-map_at known k hv hs (c ∷ s) h =
          Below-map_key known (c == b'}') c s k (omega arith) hv hs

  -- Skipping spaces before a call keeps the bound.
  Below-skip :
      {A : Type 0} (k : ℕ) (f : Text → Result (A × Text))
      → Below k f
      → Below k (λ s. f (skip_spaces s))
  Below-skip k f hf s h =
      let d = length-trim_start_by (λ c. c == b' ') s in
      Left-weaken (length (skip_spaces s)) _ d (f (skip_spaces s))
        (hf (skip_spaces s) (omega arith))

  small : (k : ℕ) → 2 * suc k ≤ 1 → ⊥
  small k le = omega arith

  zero_max : (n : ℕ) → n < 0 → ⊥
  zero_max n h = omega arith

  -- Two units of fuel for a character, one less for a value.
  mutual
    unfolding parse_value

    pub Below-parse_value : (n k : ℕ) → 2 * k ≤ suc n → Below k (parse_value ext line_no anchors n)
    Below-parse_value zero zero le = λ s h. elim (zero_max (length s) h) [ ]
    Below-parse_value zero (suc k) le = elim (small k le) [ ]
    Below-parse_value (suc n) zero le = λ s h. elim (zero_max (length s) h) [ ]
    Below-parse_value (suc n) (suc k) le = Below-skip (suc k) _ (
        Below-value_at _ _ k (Below-parse_seq n k (omega arith))
          (Below-parse_map n k no_fields (omega arith)))

    pub Below-parse_seq : (n k : ℕ) → 2 * k ≤ n → Below k (parse_seq ext line_no anchors n)
    Below-parse_seq zero zero le = λ s h. elim (zero_max (length s) h) [ ]
    Below-parse_seq zero (suc k) le = elim (small k (omega arith)) [ ]
    Below-parse_seq (suc n) zero le = λ s h. elim (zero_max (length s) h) [ ]
    Below-parse_seq (suc n) (suc k) le = Below-skip (suc k) _ (
        Below-seq_at _ _ k (Below-parse_value n (suc k) (omega arith))
          (Below-parse_seq n k (omega arith)))

    pub Below-parse_map :
        (n k : ℕ) (known : Fields) → 2 * k ≤ n → Below k (parse_map ext line_no anchors n known)
    Below-parse_map zero zero known le = λ s h. elim (zero_max (length s) h) [ ]
    Below-parse_map zero (suc k) known le = elim (small k (omega arith)) [ ]
    Below-parse_map (suc n) zero known le = λ s h. elim (zero_max (length s) h) [ ]
    Below-parse_map (suc n) (suc k) known le = Below-skip (suc k) _ (
        Below-map_at _ _ known k (Below-parse_value n k (omega arith))
          (λ m. Below-parse_map n k m (omega arith)))

  pub Left-flow_value : (s : Text) → Ends (Left (length s)) (flow_value ext line_no anchors s)
  unfolding flow_value
  Left-flow_value s =
      Below-parse_value (2 * length s + 1) (suc (length s)) (omega arith) s (omega arith)
