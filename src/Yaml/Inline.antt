-- ===== src/Yaml/Inline.antt =====
-- Values on one line, `parse_inline_value`: aliases, anchors, flow collections, which may span
-- several lines, and scalars.
use dip_rust.Base.{ℕ, zero, suc, not, ◌||◌, List, [], ◌∷◌, ◌++◌, ◌==◌, if◌then◌else◌, length}
use dip_rust.Text.{Text, codes, is_empty}
use dip_rust.Json.{Value}
use dip_rust.Yaml.Result.{Result, ok, failed, out_of_fuel, ◌>>=◌}
use dip_rust.Yaml.Scan.{split_word, flow_depth}
use dip_rust.Yaml.Scalar.{parse_scalar_token}
use dip_rust.Yaml.Flow.{External, alias_value, skip_spaces, flow_value}
use dip_rust.Yaml.Lines.{Line, State, at_lines, define_anchor}

-- The text of a flow collection: lines are added until its brackets balance.
unfoldable pub flow_lines : ℕ → Text → List Line → Result (Text × List Line)
unfolding flow_depth
flow_lines line_no buf [] = flow_depth buf line_no >>= λ depth.
    if depth == 0 then ok (buf, []) else failed line_no (codes "unclosed flow collection")
flow_lines line_no buf (l ∷ ls) =
    let next =
      flow_lines line_no (if is_empty (Line.text l) then buf else buf ++ b' ' ∷ Line.text l) ls in
    flow_depth buf line_no >>= λ depth. if depth == 0 then ok (buf, l ∷ ls) else next

-- The start of a value on one line.
pub data Start : Type 0 where
  star : Start
  ampersand : Start
  bracket : Start
  tag : Start
  token : Start

unfoldable pub start_of : ℕ → Start
start_of c =
    if c == b'*'
    then star
    else if c == b'&'
    then ampersand
    else if c == b'[' || c == b'{'
    then bracket
    else if c == b'!'
    then tag
    else token

module _ (ext : External) (line_no : ℕ) where
  unfoldable pub inline_alias : Text × Text → State → Result (Value × State)
  unfolding alias_value
  inline_alias (name, remainder) st =
      if not (is_empty remainder)
      then failed line_no (codes "unexpected content after alias *" ++ name)
      else (alias_value line_no (codes "unknown anchor '" ++ (name ++ codes "'")) name
            (State.anchors st)
          >>= λ v. ok (v, st))

  unfoldable pub inline_scalar : Text → State → Result (Value × State)
  unfolding parse_scalar_token
  inline_scalar text st = parse_scalar_token (External.is_f64 ext) text line_no >>= λ v. ok (v, st)

  unfoldable pub flow_end : State → Value × Text → Result (Value × State)
  flow_end st (v, rest) =
      if is_empty (skip_spaces rest)
      then ok (v, st)
      else failed line_no (codes "unexpected content after flow collection")

  unfoldable pub inline_flow : Text → State → Result (Value × State)
  unfolding flow_lines flow_value flow_end
  inline_flow text st = flow_lines line_no text (State.left st) >>= λ r.
      flow_value ext line_no (State.anchors st) r.0 >>= λ v. flow_end (at_lines r.1 st) v

  module _ (self : Text → State → Result (Value × State)) where
    unfoldable pub inline_anchor : Text × Text → State → Result (Value × State)
    inline_anchor (name, remainder) st =
        if is_empty name || is_empty remainder
        then failed line_no (codes "anchor must be followed by a value")
        else (self remainder st >>= λ r. ok (define_anchor name r))

    unfoldable pub inline_open : Start → ℕ → Text → State → Result (Value × State)
    unfolding inline_anchor inline_alias inline_flow inline_scalar split_word
    inline_open star c s st = inline_alias (split_word s) st
    inline_open ampersand c s st = inline_anchor (split_word s) st
    inline_open bracket c s st = inline_flow (c ∷ s) st
    inline_open tag c s st = failed line_no (codes "YAML tags are not supported")
    inline_open token c s st = inline_scalar (c ∷ s) st

    unfoldable pub inline_at : Text → State → Result (Value × State)
    unfolding inline_open start_of
    inline_at [] st = inline_scalar [] st
    inline_at (c ∷ s) st = inline_open (start_of c) c s st

  -- One unit of fuel for an anchor; `suc (length text)` units are enough.
  unfoldable pub inline_value : ℕ → Text → State → Result (Value × State)
  unfolding inline_at
  inline_value zero text st = out_of_fuel
  inline_value (suc n) text st = inline_at (inline_value n) text st

  unfoldable pub parse_inline_value : Text → State → Result (Value × State)
  unfolding inline_value
  parse_inline_value text st = inline_value (suc (length text)) text st
