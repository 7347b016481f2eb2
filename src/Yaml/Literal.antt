-- ===== src/Yaml/Literal.antt =====
-- Literal and folded block scalars: `parse_block_scalar` and the enum `Chomp`.
use dip_rust.Base.{
  ℕ, zero, suc, ◌-◌, Bool, true, not, Option, none, some, List, [], ◌∷◌, ◌++◌, ltb, leb, ◌==◌,
  if◌then◌else◌, unwrap_or, drop,
}
use dip_rust.Text.{Text, codes, is_empty, trim, join}
use dip_rust.Json.{Value, string}
use dip_rust.Yaml.Result.{Result, ok, failed, ◌>>=◌}
use dip_rust.Yaml.Scan.{head_is}
use dip_rust.Yaml.Scalar.{is_digit}
use dip_rust.Yaml.Lines.{Line, State, at_lines}

pub data Chomp : Type 0 where
  clip : Chomp
  strip : Chomp
  keep : Chomp

-- The chomping and what is left of the header behind its first character.
unfoldable pub chomping : Text → Chomp × Text
chomping [] = (clip, [])
chomping (c ∷ s) = if c == b'-' then (strip, s) else if c == b'+' then (keep, s) else (clip, c ∷ s)

unfoldable pub spaces : ℕ → Text
spaces zero = []
spaces (suc n) = b' ' ∷ spaces n

abbrev pub with_line : Text → List Text × List Line → List Text × List Line
with_line t (collected, ls) = (t ∷ collected, ls)

-- The lines that are deeper than the key, with their indentation beyond the first one's.
unfoldable pub collect_lines : ℕ → Option ℕ → List Line → Result (List Text × List Line)
unfolding spaces
collect_lines key_indent block_indent [] = ok ([], [])
collect_lines key_indent block_indent (l ∷ ls) =
    let base = unwrap_or block_indent (Line.indent l) in
    let later =
      collect_lines key_indent (if is_empty (Line.raw l) then block_indent else some base) ls in
    if is_empty (Line.raw l)
    then (later >>= λ r. ok (with_line [] r))
    else if leb (Line.indent l) key_indent
    then ok ([], l ∷ ls)
    else if ltb (Line.indent l) base
    then failed (Line.number l) (codes "bad indentation inside block scalar")
    else (later >>= λ r. ok (with_line (spaces (Line.indent l - base) ++ Line.raw l) r))

-- The content, and the number of the blank lines behind it.
abbrev pub before_content : Text → List Text × ℕ → List Text × ℕ
before_content t ([], blanks) = if is_empty t then ([], suc blanks) else (t ∷ [], blanks)
before_content t (l ∷ ls, blanks) = (t ∷ l ∷ ls, blanks)

unfoldable pub split_blanks : List Text → List Text × ℕ
split_blanks [] = ([], 0)
split_blanks (t ∷ ts) = before_content t (split_blanks ts)

unfoldable pub fold_lines : (prev_blank : Bool) → List Text → Text
fold_lines prev_blank [] = []
fold_lines prev_blank (l ∷ ls) =
    let later = fold_lines (is_empty l) ls in
    if is_empty l then b'\n' ∷ later else (if prev_blank then [] else b' ' ∷ []) ++ (l ++ later)

unfoldable pub newlines : ℕ → Text
newlines zero = []
newlines (suc n) = b'\n' ∷ newlines n

unfoldable pub chomp_body : Chomp → ℕ → Text → Text
unfolding newlines
chomp_body strip blanks body = body
chomp_body clip blanks body = if is_empty body then [] else body ++ b'\n' ∷ []
chomp_body keep blanks body = body ++ newlines (suc blanks)

unfoldable pub scalar_body : (folded : Bool) → Chomp → List Text → Text
unfolding split_blanks fold_lines chomp_body
scalar_body folded chomp collected =
    let parts = split_blanks collected in
    chomp_body chomp parts.1 (if folded then fold_lines true parts.0 else join (b'\n' ∷ []) parts.0)

-- The caller has seen the `|` or `>`, so that the header is not empty.
unfoldable pub parse_block_scalar : Text → ℕ → ℕ → State → Result (Value × State)
unfolding chomping collect_lines scalar_body
parse_block_scalar header key_indent line_no st =
    let marks = chomping (drop 1 header) in
    if head_is is_digit marks.1
    then failed line_no (codes "explicit block scalar indentation is not supported")
    else if not (is_empty (trim marks.1))
    then failed line_no (codes "unexpected content after '" ++ (header ++ codes "'"))
    else (collect_lines key_indent none (State.left st) >>= λ r.
        ok (string (scalar_body (head_is (λ c. c == b'>') header) marks.0 r.0), at_lines r.1 st))
