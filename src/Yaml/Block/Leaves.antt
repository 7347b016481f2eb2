-- ===== src/Yaml/Block/Leaves.antt =====
-- Values on one line and block scalars of src/utils/yaml.rs: their fuel, and the lines they leave.
use dip_rust.Base.{
  ℕ, zero, suc, ◌-◌, ◌≤◌, ◌<◌, refl, not, ◌&&◌, ◌||◌, Option, none, some, List, [], ◌∷◌, ◌++◌,
  arith, ltb, leb, ◌==◌, if◌then◌else◌, unwrap_or, length, drop,
}
use dip_rust.Text.{Text, is_empty, trim}
use dip_rust.Json.{Value}
use dip_rust.Yaml.Result.{Result, ok, failed, out_of_fuel, Ends, Ends->>=, Ends-if}
use dip_rust.Yaml.Scan.{
  Mode, outside, next_mode, is_outside, head_is, take_quoted, is_quote, split_word, depth_from,
  flow_depth,
}
use dip_rust.Yaml.Scalar.{is_digit, parse_scalar_token}
use dip_rust.Yaml.Flow.{External, Anchors, anchor, alias_value, skip_spaces, flow_value}
use dip_rust.Yaml.Flow.Tokens.{Left, Left-take_quoted}
use dip_rust.Yaml.Flow.Ending.{Left-flow_value}
use dip_rust.Yaml.Lines.{Line, State, at_lines, define_anchor}
use dip_rust.Yaml.Literal.{chomping, collect_lines, parse_block_scalar}
use dip_rust.Yaml.Inline.{
  flow_lines, Start, star, ampersand, bracket, tag, token, start_of, inline_alias, inline_scalar,
  flow_end, inline_flow, inline_anchor, inline_open, inline_at, inline_value, parse_inline_value,
}
use dip_rust.Yaml.Block.Sizes.{
  lines_size, size, Fits, Fits-weaken, Anything, Ends-Anything, Fits-map, length-split_word,
}

abbrev Rest : {A : Type 0} → ℕ → A × List Line → Type 0
Rest n r = lines_size r.1 ≤ n

-- Errors and values without a state.
Ends-depth_from :
    (line_no : ℕ) (mode : Mode) (depth : ℕ) (s : Text)
    → Ends Anything (depth_from line_no mode depth s)
unfolding depth_from
Ends-depth_from line_no mode depth [] = tt
Ends-depth_from line_no mode depth (c ∷ s) =
    let after = next_mode mode c in
    Ends-if Anything (is_outside mode && (c == b'[' || c == b'{')) _ _
      (λ _. Ends-depth_from line_no after (suc depth) s)
      (λ _.
        Ends-if Anything (is_outside mode && (c == b']' || c == b'}')) _ _
          (λ _.
            Ends-if Anything (depth == 0) _ _ (λ _. tt)
              (λ _. Ends-depth_from line_no after (depth - 1) s))
          (λ _. Ends-depth_from line_no after depth s))

module _ {A : Type 0} (n k : ℕ) (le : n ≤ k) where
  Rest-weaken : (m : Result (A × List Line)) → Ends (Rest n) m → Ends (Rest k) m
  Rest-weaken (ok r) h = omega arith
  Rest-weaken (failed line_no msg) h = tt
  Rest-weaken out_of_fuel h = h

Rest-flow_lines :
    (line_no : ℕ) (buf : Text) (ls : List Line)
    → Ends (Rest (lines_size ls)) (flow_lines line_no buf ls)
unfolding flow_lines flow_depth
Rest-flow_lines line_no buf [] =
    Ends->>= Anything (Rest 0) (flow_depth buf line_no) _ (Ends-depth_from line_no outside 0 buf)
      (λ depth _. Ends-if (Rest 0) (depth == 0) _ _ (λ _. omega arith) (λ _. tt))
Rest-flow_lines line_no buf (l ∷ ls) =
    let P = Rest (lines_size (l ∷ ls)) in
    let more = if is_empty (Line.text l) then buf else buf ++ b' ' ∷ Line.text l in
    Ends->>= Anything P (flow_depth buf line_no) _ (Ends-depth_from line_no outside 0 buf)
      (λ depth _.
        Ends-if P (depth == 0) _ _ (λ _. omega arith)
          (λ _.
            Rest-weaken (lines_size ls) _ (omega arith) (flow_lines line_no more ls)
              (Rest-flow_lines line_no more ls)))

module _ (ext : External) (line_no : ℕ) where
  Ends-alias_value :
      (message name : Text) (anchors : Anchors)
      → Ends Anything (alias_value line_no message name anchors)
  unfolding alias_value
  Ends-alias_value message name anchors = found (anchor name anchors)
    where
      found :
          (v : Option Value)
          → Ends Anything (elim v [ some v ↦ ok v | none ↦ failed line_no message ])
      found none = tt
      found (some v) = tt

  Ends-take_quoted : (s : Text) → Ends Anything (take_quoted line_no s)
  unfolding take_quoted
  Ends-take_quoted [] = tt
  Ends-take_quoted (c ∷ s) =
      Ends-Anything (Left (length s)) (take_quoted line_no (c ∷ s)) (Left-take_quoted line_no c s)

  Fits-inline_alias :
      (r : Text × Text) (st : State) → Ends (Fits (size st)) (inline_alias ext line_no r st)
  unfolding inline_alias
  Fits-inline_alias (name, remainder) st =
      Ends-if (Fits (size st)) (not (is_empty remainder)) _ _ (λ _. tt)
        (λ _.
          Ends->>= Anything (Fits (size st)) (alias_value line_no _ name (State.anchors st)) _
            (Ends-alias_value _ name (State.anchors st)) (λ v _. omega arith))

  Ends-parse_scalar_token :
      (text : Text) → Ends Anything (parse_scalar_token (External.is_f64 ext) text line_no)
  unfolding parse_scalar_token
  Ends-parse_scalar_token text =
      Ends-if Anything (head_is is_quote text) _ _
        (λ _.
          Ends->>= Anything Anything (take_quoted line_no text) _ (Ends-take_quoted text)
            (λ r _. Ends-if Anything (is_empty (trim r.1)) _ _ (λ _. tt) (λ _. tt)))
        (λ _. tt)

  Fits-inline_scalar :
      (text : Text) (st : State) → Ends (Fits (size st)) (inline_scalar ext line_no text st)
  unfolding inline_scalar
  Fits-inline_scalar text st =
      Ends->>= Anything (Fits (size st)) (parse_scalar_token (External.is_f64 ext) text line_no) _
        (Ends-parse_scalar_token text) (λ v _. omega arith)

  Fits-flow_end :
      (st : State) (r : Value × Text) → Ends (Fits (size st)) (flow_end ext line_no st r)
  unfolding flow_end
  Fits-flow_end st (v, rest) =
      Ends-if (Fits (size st)) (is_empty (skip_spaces rest)) _ _ (λ _. omega arith) (λ _. tt)

  Fits-inline_flow :
      (text : Text) (st : State) → Ends (Fits (size st)) (inline_flow ext line_no text st)
  unfolding inline_flow
  Fits-inline_flow text st =
      Ends->>= (Rest (size st)) (Fits (size st)) (flow_lines line_no text (State.left st)) _
        (Rest-flow_lines line_no text (State.left st))
        (λ r le.
          Ends->>= (Left (length r.0)) (Fits (size st))
            (flow_value ext line_no (State.anchors st) r.0) _
            (Left-flow_value ext line_no (State.anchors st) r.0)
            (λ v _.
              Fits-weaken (lines_size r.1) (size st) le _ (Fits-flow_end (at_lines r.1 st) v)))

  module _ (n : ℕ) (self : Text → State → Result (Value × State))
      (hs : (t : Text) (st : State) → length t < n → Ends (Fits (size st)) (self t st)) where
    Fits-inline_anchor :
        (r : Text × Text) (st : State)
        → length r.1 < n
        → Ends (Fits (size st)) (inline_anchor ext line_no self r st)
    unfolding inline_anchor
    Fits-inline_anchor (name, remainder) st h =
        Ends-if (Fits (size st)) (is_empty name || is_empty remainder) _ _ (λ _. tt)
          (λ _.
            Fits-map (define_anchor name) (size st) (λ r. refl) (self remainder st)
              (hs remainder st h))

    Fits-inline_open :
        (k : Start) (c : ℕ) (s : Text) (st : State)
        → length s < n
        → Ends (Fits (size st)) (inline_open ext line_no self k c s st)
    unfolding inline_open
    Fits-inline_open star c s st h = Fits-inline_alias (split_word s) st
    Fits-inline_open ampersand c s st h =
        Fits-inline_anchor (split_word s) st (omega (arith, length-split_word s))
    Fits-inline_open bracket c s st h = Fits-inline_flow (c ∷ s) st
    Fits-inline_open tag c s st h = tt
    Fits-inline_open token c s st h = Fits-inline_scalar (c ∷ s) st

    Fits-inline_at :
        (text : Text) (st : State)
        → length text < suc n
        → Ends (Fits (size st)) (inline_at ext line_no self text st)
    unfolding inline_at
    Fits-inline_at [] st h = Fits-inline_scalar [] st
    Fits-inline_at (c ∷ s) st h = Fits-inline_open (start_of c) c s st (omega arith)

  -- Fuel for more characters than the text has.
  Fits-inline_value :
      (n : ℕ) (text : Text) (st : State)
      → length text < n
      → Ends (Fits (size st)) (inline_value ext line_no n text st)
  unfolding inline_value
  Fits-inline_value zero text st h = too_long (length text) h
    where
      too_long : (k : ℕ) → k < 0 → ⊥
      too_long k h = omega arith
  Fits-inline_value (suc n) text st h =
      Fits-inline_at n (inline_value ext line_no n) (Fits-inline_value n) text st h

  pub Fits-parse_inline_value :
      (text : Text) (st : State) → Ends (Fits (size st)) (parse_inline_value ext line_no text st)
  unfolding parse_inline_value
  Fits-parse_inline_value text st = Fits-inline_value (suc (length text)) text st (omega arith)

Rest-collect_lines :
    (key_indent : ℕ) (block_indent : Option ℕ) (ls : List Line)
    → Ends (Rest (lines_size ls)) (collect_lines key_indent block_indent ls)
unfolding collect_lines
Rest-collect_lines key_indent block_indent [] = omega arith
Rest-collect_lines key_indent block_indent (l ∷ ls) =
    let P = Rest (lines_size (l ∷ ls)) in
    let base = unwrap_or block_indent (Line.indent l) in
    let later =
      collect_lines key_indent (if is_empty (Line.raw l) then block_indent else some base) ls in
    let ends =
      Rest-collect_lines key_indent (if is_empty (Line.raw l) then block_indent else some base)
        ls in
    Ends-if P (is_empty (Line.raw l)) _ _
      (λ _. Ends->>= (Rest (lines_size ls)) P later _ ends (λ r h. omega arith))
      (λ _.
        Ends-if P (leb (Line.indent l) key_indent) _ _ (λ _. omega arith)
          (λ _.
            Ends-if P (ltb (Line.indent l) base) _ _ (λ _. tt)
              (λ _. Ends->>= (Rest (lines_size ls)) P later _ ends (λ r h. omega arith))))

pub Fits-parse_block_scalar :
    (header : Text) (key_indent line_no : ℕ) (st : State)
    → Ends (Fits (size st)) (parse_block_scalar header key_indent line_no st)
unfolding parse_block_scalar
Fits-parse_block_scalar header key_indent line_no st =
    let P = Fits (size st) in
    let marks = chomping (drop 1 header) in
    Ends-if P (head_is is_digit marks.1) _ _ (λ _. tt)
      (λ _.
        Ends-if P (not (is_empty (trim marks.1))) _ _ (λ _. tt)
          (λ _.
            Ends->>= (Rest (size st)) P (collect_lines key_indent none (State.left st)) _
              (Rest-collect_lines key_indent none (State.left st)) (λ r h. omega arith)))
