-- ===== src/Yaml/Lines.antt =====
-- The lines of a document and the state of the parser: `Parser::new`, `peek` and `advance_to_peeked`.
-- The position in the lines is the list of the lines that are left.
use dip_rust.Base.{ℕ, suc, List, [], ◌∷◌, ◌==◌, if◌then◌else◌}
use dip_rust.Text.{Text, codes, is_empty, trim_end, lines}
use dip_rust.Json.{Value}
use dip_rust.Yaml.Result.{Result, ok, failed, ◌>>=◌}
use dip_rust.Yaml.Scan.{strip_comment, head_is}
use dip_rust.Yaml.Flow.{Anchors, skip_spaces}

pub record Line : Type 0 where
  pub number : ℕ
  pub indent : ℕ
  pub text : Text
  pub raw : Text

pub record State : Type 0 where
  pub left : List Line
  pub anchors : Anchors

-- `strip_suffix('\r')`.
unfoldable pub without_cr : Text → Text
without_cr [] = []
without_cr (c ∷ []) = if c == b'\r' then [] else c ∷ []
without_cr (c ∷ d ∷ s) = c ∷ without_cr (d ∷ s)

unfoldable pub leading_spaces : Text → ℕ
leading_spaces [] = 0
leading_spaces (c ∷ s) = if c == b' ' then suc (leading_spaces s) else 0

unfoldable pub read_line : ℕ → Text → Result Line
unfolding strip_comment leading_spaces
read_line number line =
    if head_is (λ c. c == b'\t') (skip_spaces line)
    then failed number (codes "tabs are not allowed in indentation")
    else ok (record {
      number = number;
      indent = leading_spaces line;
      text = trim_end (strip_comment (skip_spaces line));
      raw = skip_spaces line;
    })

unfoldable pub read_lines : ℕ → List Text → Result (List Line)
unfolding read_line without_cr
read_lines number [] = ok []
read_lines number (line ∷ rest) =
    read_line number (without_cr line) >>= λ l. read_lines (suc number) rest >>= λ ls. ok (l ∷ ls)

unfoldable pub new : Text → Result State
unfolding read_lines
new input = read_lines 1 (lines input) >>= λ ls. ok (record { left = ls; anchors = [] })

-- The lines from the next one with content on.
unfoldable pub skip_blank : List Line → List Line
skip_blank [] = []
skip_blank (l ∷ ls) = if is_empty (Line.text l) then skip_blank ls else l ∷ ls

abbrev pub at_lines : List Line → State → State
at_lines ls st = record { left = ls; anchors = State.anchors st }

abbrev pub define_anchor : Text → Value × State → Value × State
define_anchor name (v, st) =
    (v, record { left = State.left st; anchors = (name, v) ∷ State.anchors st })
