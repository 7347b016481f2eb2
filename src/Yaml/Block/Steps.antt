-- ===== src/Yaml/Block/Steps.antt =====
-- The fuel of the block parser's steps, over the calls that each makes.
use dip_rust.Base.{
  ℕ, suc, ◌+◌, ◌≤◌, ◌<◌, ◌≡◌, refl, Bool, true, false, not, ◌||◌, Option, none, some, List, [], ◌∷◌,
  arith, ltb, ◌==◌, if◌then◌else◌, is_some, length, drop, length-drop,
}
use dip_rust.Text.{Text, codes, text_eq, starts_with}
use dip_rust.Json.{Value, Items, Fields, null, bool, int, float, string, array, object, no_fields}
use dip_rust.Yaml.Result.{ok, ◌>>=◌, Ends, Ends->>=, Ends-if}
use dip_rust.Yaml.Scan.{split_key, split_word}
use dip_rust.Yaml.Flow.{External}
use dip_rust.Yaml.Flow.Tokens.{length-trim_start_by}
use dip_rust.Yaml.Lines.{Line, State, at_lines, define_anchor}
use dip_rust.Yaml.Block.{
  is_dash, is_marker, Node, shallow, dashes, keyed, single, node_of, mapping_line, merge_sources,
  merge_source, merge_all, Maps, add_entry, Dash, ends, alone, content, dash_of, virtual_line,
  After, nested, anchored, literal, inline, after_of, in_sequence, push_item, Parse, node_open,
  node_at, mapping_entry, mapping_at, sequence_item, sequence_at, after_anchor, after_open,
}
use dip_rust.Yaml.Block.Sizes.{
  lines_size, size, Fits, Fits-weaken, Anything, Fits-map, length-split_word, Shorter,
  Shorter-split_key,
}
use dip_rust.Yaml.Block.Leaves.{Fits-parse_inline_value, Fits-parse_block_scalar}

-- On states smaller than `k`, the call ends and leaves no more than it was given.
abbrev pub Small : {A : Type 0} → ℕ → Parse A → Type 0
Small k f = (st : State) → size st < k → Ends (Fits (size st)) (f st)

Anything-node_of : (min_indent : ℕ) (l : Line) → Ends Anything (node_of min_indent l)
unfolding node_of
Anything-node_of min_indent l =
    Ends-if Anything (ltb (Line.indent l) min_indent) _ _ (λ _. tt)
      (λ _.
        Ends-if Anything (is_dash (Line.text l)) _ _ (λ _. tt)
          (λ _.
            Ends->>= (Shorter (length (Line.text l))) Anything
              (split_key (Line.text l) (Line.number l)) _
              (Shorter-split_key (Line.text l) (Line.number l)) (λ k _. tt)))

Shorter-mapping_line :
    (indent : ℕ) (l : Line) → Ends (Shorter (length (Line.text l))) (mapping_line indent l)
unfolding mapping_line
Shorter-mapping_line indent l =
    let P = Shorter (length (Line.text l)) in
    Ends-if P (is_marker (Line.text l)) _ _ (λ _. tt)
      (λ _.
        Ends-if P (ltb indent (Line.indent l)) _ _ (λ _. tt)
          (λ _.
            Ends-if P (ltb (Line.indent l) indent) _ _ (λ _. tt)
              (λ _.
                Ends->>= P P (split_key (Line.text l) (Line.number l)) _
                  (Shorter-split_key (Line.text l) (Line.number l))
                  (λ k h. Ends-if P (is_some k) _ _ (λ _. h) (λ _. tt)))))

module _ (ext : External) (line_no : ℕ) where
  Anything-merge_sources : (v : Value) → Ends Anything (merge_sources ext line_no v)
  unfolding merge_sources
  Anything-merge_sources null = tt
  Anything-merge_sources (bool b) = tt
  Anything-merge_sources (int i) = tt
  Anything-merge_sources (float t) = tt
  Anything-merge_sources (string t) = tt
  Anything-merge_sources (array items) = tt
  Anything-merge_sources (object known) = tt

  Anything-merge_source :
      (v : Value) (merged : Fields) → Ends Anything (merge_source line_no v merged)
  unfolding merge_source
  Anything-merge_source null merged = tt
  Anything-merge_source (bool b) merged = tt
  Anything-merge_source (int i) merged = tt
  Anything-merge_source (float t) merged = tt
  Anything-merge_source (string t) merged = tt
  Anything-merge_source (array items) merged = tt
  Anything-merge_source (object known) merged = tt

  Anything-merge_all :
      (values : List Value) (merged : Fields) → Ends Anything (merge_all line_no values merged)
  unfolding merge_all
  Anything-merge_all [] merged = tt
  Anything-merge_all (v ∷ values) merged =
      Ends->>= Anything Anything (merge_source line_no v merged) _ (Anything-merge_source v merged)
        (λ m _. Anything-merge_all values m)

  Anything-add_entry :
      (key : Text) (value : Value) (maps : Maps)
      → Ends Anything (add_entry ext line_no key value maps)
  unfolding add_entry
  Anything-add_entry key value (own, merged) =
      Ends-if Anything (text_eq key (codes "<<")) _ _
        (λ _.
          Ends->>= Anything Anything (merge_sources ext line_no value) _
            (Anything-merge_sources value)
            (λ sources _.
              Ends->>= Anything Anything (merge_all line_no sources merged) _
                (Anything-merge_all sources merged) (λ m _. tt)))
        (λ _. tt)

is_dash_nonempty : (t : Text) → is_dash t ≡ true → 1 ≤ length t
unfolding is_dash text_eq starts_with
is_dash_nonempty [] e = cc
is_dash_nonempty (c ∷ s) e = omega arith

dash_test :
    (same dash lone : Bool)
    → (if not same || not dash then ends else if lone then alone else content) ≡ content
    → dash ≡ true
dash_test true true lone e = refl
dash_test true false lone e = cc
dash_test false true lone e = cc
dash_test false false lone e = cc

dash_of-content : (indent : ℕ) (l : Line) → dash_of indent l ≡ content → 1 ≤ length (Line.text l)
unfolding dash_of
dash_of-content indent l e = is_dash_nonempty (Line.text l) (
    dash_test (Line.indent l == indent) (is_dash (Line.text l)) (text_eq (Line.text l) (codes "-"))
      e)

module _ (ext : External) where
  module _ (mapping : ℕ → Maps → Parse Value) (sequence : ℕ → Parse Items) (k : ℕ)
      (hm : (indent : ℕ) (maps : Maps) → Small k (mapping indent maps))
      (hs : (indent : ℕ) → Small k (sequence indent)) where
    Small-node_open :
        (l : Line) (ls : List Line) (st : State) (n : Node)
        → suc (length (Line.text l)) + lines_size ls ≤ size st
        → size st < k
        → Ends (Fits (size st)) (node_open ext mapping sequence l ls st n)
    unfolding node_open
    Small-node_open l ls st shallow le h = omega arith
    Small-node_open l ls st dashes le h =
        Fits-map in_sequence (size st) (λ r. refl) (sequence (Line.indent l) st)
          (hs (Line.indent l) st h)
    Small-node_open l ls st keyed le h = hm (Line.indent l) (no_fields, no_fields) st h
    Small-node_open l ls st single le h =
        Fits-weaken (lines_size ls) (size st) (omega arith) _
          (Fits-parse_inline_value ext (Line.number l) (Line.text l) (at_lines ls st))

    pub Small-node_at :
        (min_indent : ℕ) (ls : List Line) (st : State)
        → lines_size ls ≤ size st
        → size st < k
        → Ends (Fits (size st)) (node_at ext mapping sequence min_indent ls st)
    unfolding node_at
    Small-node_at min_indent [] st le h = omega arith
    Small-node_at min_indent (l ∷ ls) st le h =
        Ends->>= Anything (Fits (size st)) (node_of min_indent l) _ (Anything-node_of min_indent l)
          (λ n _. Small-node_open l ls st n le h)

  -- A mapping's call on a state smaller than `suc k` makes calls on smaller ones.
  module _ (mapping : Maps → Parse Value) (after : Text → ℕ → Parse Value) (k : ℕ)
      (hm : (maps : Maps) → Small k (mapping maps))
      (ha : (rest : Text) (line_no : ℕ) (st : State)
        → size st + length rest + 2 < k
        → Ends (Fits (size st)) (after rest line_no st)) where
    Small-mapping_entry :
        (maps : Maps) (l : Line) (ls : List Line) (st : State) (o : Option (Text × Text))
        → Shorter (length (Line.text l)) o
        → suc (length (Line.text l)) + lines_size ls ≤ size st
        → size st < suc k
        → Ends (Fits (size st)) (mapping_entry ext mapping after maps l ls st o)
    unfolding mapping_entry
    Small-mapping_entry maps l ls st none short le h = omega arith
    Small-mapping_entry maps l ls st (some (key, rest)) short le h =
        let P = Fits (size st) in
        Ends->>= (Fits (lines_size ls)) P (after rest (Line.number l) (at_lines ls st)) _
          (ha rest (Line.number l) (at_lines ls st) (omega arith))
          (λ r b.
            Ends->>= Anything P (add_entry ext (Line.number l) key r.0 maps) _
              (Anything-add_entry ext (Line.number l) key r.0 maps)
              (λ m _. Fits-weaken (size r.1) (size st) (omega arith) _ (hm m r.1 (omega arith))))

    pub Small-mapping_at :
        (indent : ℕ) (maps : Maps) (ls : List Line) (st : State)
        → lines_size ls ≤ size st
        → size st < suc k
        → Ends (Fits (size st)) (mapping_at ext mapping after indent maps ls st)
    unfolding mapping_at
    Small-mapping_at indent maps [] st le h = omega arith
    Small-mapping_at indent maps (l ∷ ls) st le h =
        Ends->>= (Shorter (length (Line.text l))) (Fits (size st)) (mapping_line indent l) _
          (Shorter-mapping_line indent l) (λ o short. Small-mapping_entry maps l ls st o short le h)

  module _ (sequence : Parse Items) (node : Parse Value) (k : ℕ) (hs : Small k sequence)
      (hn : Small k node) where
    -- An item, and then the rest of the sequence.
    Small-item :
        (ls : List Line) (st : State)
        → lines_size ls < size st
        → size st < suc k
        → Ends
            (Fits (size st))
            (node (at_lines ls st) >>= λ r. sequence r.1 >>= λ q. ok (push_item r.0 q))
    Small-item ls st le h =
        let P = Fits (size st) in
        Ends->>= (Fits (lines_size ls)) P (node (at_lines ls st)) _
          (hn (at_lines ls st) (omega arith))
          (λ r b.
            Fits-weaken (size r.1) (size st) (omega arith) _ (
              Fits-map (push_item r.0) (size r.1) (λ q. refl) (sequence r.1)
                (hs r.1 (omega arith))))

    Small-sequence_item :
        (indent : ℕ) (l : Line) (ls : List Line) (st : State) (d : Dash)
        → (d ≡ content → 1 ≤ length (Line.text l))
        → suc (length (Line.text l)) + lines_size ls ≤ size st
        → size st < suc k
        → Ends (Fits (size st)) (sequence_item ext sequence node indent l ls st d)
    unfolding sequence_item virtual_line
    Small-sequence_item indent l ls st ends some_text le h = omega arith
    Small-sequence_item indent l ls st alone some_text le h = Small-item ls st (omega arith) h
    Small-sequence_item indent l ls st content some_text le h =
        let d = length-trim_start_by (λ c. c == b' ') (drop 2 (Line.text l)) in
        let t = some_text refl in
        let dr = length-drop 2 (Line.text l) in
        Small-item (virtual_line indent l ∷ ls) st (omega arith) h

    pub Small-sequence_at :
        (indent : ℕ) (ls : List Line) (st : State)
        → lines_size ls ≤ size st
        → size st < suc k
        → Ends (Fits (size st)) (sequence_at ext sequence node indent ls st)
    unfolding sequence_at
    Small-sequence_at indent [] st le h = omega arith
    Small-sequence_at indent (l ∷ ls) st le h =
        Small-sequence_item indent l ls st (dash_of indent l) (dash_of-content indent l) le h

  module _ (node : Parse Value) (after : Text → Parse Value) (key_indent line_no k : ℕ)
      (hn : Small (suc k) node)
      (ha : (rest : Text) (st : State)
        → size st + length rest < k
        → Ends (Fits (size st)) (after rest st)) where
    Small-after_anchor :
        (r : Text × Text) (st : State)
        → size st + length r.1 < k
        → Ends (Fits (size st)) (after_anchor ext node after key_indent line_no r st)
    unfolding after_anchor
    Small-after_anchor ([], remainder) st h = tt
    Small-after_anchor (c ∷ name, []) st h =
        Fits-map (define_anchor (c ∷ name)) (size st) (λ r. refl) (node st) (hn st (omega arith))
    Small-after_anchor (c ∷ name, d ∷ remainder) st h =
        Fits-map (define_anchor (c ∷ name)) (size st) (λ r. refl) (after (d ∷ remainder) st)
          (ha (d ∷ remainder) st h)

    Small-after_open :
        (c : ℕ) (s : Text) (a : After) (st : State)
        → size st + length s < k
        → Ends (Fits (size st)) (after_open ext node after key_indent line_no (c ∷ s) a st)
    unfolding after_open
    Small-after_open c s nested st h = hn st (omega arith)
    Small-after_open c s anchored st h =
        Small-after_anchor (split_word s) st (omega (arith, length-split_word s))
    Small-after_open c s literal st h = Fits-parse_block_scalar (c ∷ s) key_indent line_no st
    Small-after_open c s inline st h = Fits-parse_inline_value ext line_no (c ∷ s) st

    pub Small-after_text :
        (rest : Text) (st : State)
        → size st + length rest < suc k
        → Ends
            (Fits (size st))
            (after_open ext node after key_indent line_no rest (after_of rest) st)
    unfolding after_open after_of
    Small-after_text [] st h = hn st (omega arith)
    Small-after_text (c ∷ s) st h = Small-after_open c s (after_of (c ∷ s)) st (omega arith)
