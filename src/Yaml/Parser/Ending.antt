-- ===== src/Yaml/Parser/Ending.antt =====
-- The fuel of `from_str` of src/utils/yaml.rs.
use dip_rust.Base.{ℕ, suc, ◌+◌, ◌*◌, ◌≢◌, List, [], ◌∷◌, arith, ◌==◌}
use dip_rust.Text.{Text, codes, text_eq, lines}
use dip_rust.Json.{Value}
use dip_rust.Yaml.Result.{out_of_fuel, Ends, Ends->>=, Ends-if, Ends-ne_out_of_fuel}
use dip_rust.Yaml.Scan.{head_is}
use dip_rust.Yaml.Flow.{External, skip_spaces}
use dip_rust.Yaml.Lines.{Line, State, without_cr, read_line, read_lines, new, skip_blank, at_lines}
use dip_rust.Yaml.Block.{parse_node}
use dip_rust.Yaml.Block.Sizes.{lines_size, Fits, Anything}
use dip_rust.Yaml.Block.Ending.{Small-parse_node}
use dip_rust.Yaml.Parser.{open_document, close_document, nothing_left, parse_document, from_str}

Anything-read_lines : (number : ℕ) (ls : List Text) → Ends Anything (read_lines number ls)
unfolding read_lines read_line
Anything-read_lines number [] = tt
Anything-read_lines number (l ∷ ls) =
    Ends->>= Anything Anything (read_line number (without_cr l)) _
      (Ends-if Anything (head_is (λ c. c == b'\t') (skip_spaces (without_cr l))) _ _ (λ _. tt)
        (λ _. tt))
      (λ line _.
        Ends->>= Anything Anything (read_lines (suc number) ls) _
          (Anything-read_lines (suc number) ls) (λ rest _. tt))

Anything-open_document : (left ls : List Line) → Ends Anything (open_document left ls)
unfolding open_document
Anything-open_document left [] = tt
Anything-open_document left (l ∷ ls) =
    Ends-if Anything (text_eq (Line.text l) (codes "---")) _ _ (λ _. tt)
      (λ _. Ends-if Anything (head_is (λ c. c == b'%') (Line.text l)) _ _ (λ _. tt) (λ _. tt))

Anything-nothing_left : (v : Value) (ls : List Line) → Ends Anything (nothing_left v ls)
unfolding nothing_left
Anything-nothing_left v [] = tt
Anything-nothing_left v (l ∷ ls) =
    Ends-if Anything (text_eq (Line.text l) (codes "---")) _ _ (λ _. tt) (λ _. tt)

Anything-parse_document : (ext : External) (st : State) → Ends Anything (parse_document ext st)
unfolding parse_document
Anything-parse_document ext st =
    Ends->>= Anything Anything (open_document (State.left st) (skip_blank (State.left st))) _
      (Anything-open_document (State.left st) (skip_blank (State.left st)))
      (λ ls _.
        Ends->>= (Fits (lines_size ls)) Anything
          (parse_node ext (2 * lines_size ls + 2) 0 (at_lines ls st)) _
          (Small-parse_node ext (2 * lines_size ls + 2) (suc (lines_size ls)) (omega arith) 0
            (at_lines ls st) (omega arith))
          (λ r _.
            Anything-nothing_left r.0 (skip_blank (close_document (skip_blank (State.left r.1))))))

pub Anything-from_str : (ext : External) (input : Text) → Ends Anything (from_str ext input)
unfolding from_str new
Anything-from_str ext input =
    Ends->>= Anything Anything (new input) (parse_document ext)
      (Ends->>= Anything Anything (read_lines 1 (lines input)) _
        (Anything-read_lines 1 (lines input)) (λ ls _. tt))
      (λ st _. Anything-parse_document ext st)

-- For every text, the fuel that `from_str` gives to the block parser, the flow parser and the
-- parser of inline values is enough: the result is a value or an error with a line.
pub from_str-out_of_fuel : (ext : External) (input : Text) → from_str ext input ≢ out_of_fuel
from_str-out_of_fuel ext input =
    Ends-ne_out_of_fuel Anything (from_str ext input) (Anything-from_str ext input)
