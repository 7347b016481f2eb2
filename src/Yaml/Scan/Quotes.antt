-- ===== src/Yaml/Scan/Quotes.antt =====
-- How a text is written in single and in double quotes, for `take_quoted` of src/utils/yaml.rs.
use dip_rust.Base.{
  ℕ, ◌≡◌, refl, sym, ap, inl, inr, false, Option, none, some, [], ◌∷◌, arith, ◌==◌, if◌then◌else◌,
  ==_iff, Bool-cases,
}
use dip_rust.Text.{Text}
use dip_rust.Yaml.Result.{ok}
use dip_rust.Yaml.Scan.{cons_token, take_quoted, take_single, take_double, unescape}

-- A text between single quotes.
abbrev pub double_quote : ℕ → Text → Text
double_quote c s = if c == b'\'' then b'\'' ∷ b'\'' ∷ s else c ∷ s

unfoldable pub in_single_quotes : Text → Text → Text
in_single_quotes [] rest = b'\'' ∷ rest
in_single_quotes (c ∷ s) rest = double_quote c (in_single_quotes s rest)

-- A text between double quotes.
unfoldable pub escape_char : ℕ → Option ℕ
escape_char c =
    if c == b'\n'
    then some b'n'
    else if c == b'\t'
    then some b't'
    else if c == b'\r'
    then some b'r'
    else if c == 0
    then some b'0'
    else if c == b'\\'
    then some b'\\'
    else if c == b'"'
    then some b'"'
    else none

abbrev pub put_escape : Option ℕ → ℕ → Text → Text
put_escape none c s = c ∷ s
put_escape (some e) c s = b'\\' ∷ e ∷ s

unfoldable pub in_double_quotes : Text → Text → Text
unfolding escape_char
in_double_quotes [] rest = b'"' ∷ rest
in_double_quotes (c ∷ s) rest = put_escape (escape_char c) c (in_double_quotes s rest)

-- The text does not start with a single quote.
abbrev pub NoQuote : Text → Type 0
NoQuote [] = Unit
NoQuote (c ∷ s) = c == b'\'' ≡ false

-- A character that is no quote.
take_single_plain :
    (line_no c : ℕ) (s : Text) (r : Text × Text)
    → c == b'\'' ≡ false
    → take_single line_no s ≡ ok r
    → take_single line_no (c ∷ s) ≡ ok (cons_token c r)
unfolding take_single
take_single_plain line_no c [] r e h = cc
take_single_plain line_no c (d ∷ s) r e h = rw (e, h) refl

take_single_end :
    (line_no : ℕ) (rest : Text) → NoQuote rest → take_single line_no (b'\'' ∷ rest) ≡ ok ([], rest)
unfolding take_single
take_single_end line_no [] h = refl
take_single_end line_no (d ∷ rest) h = rw h refl

take_single-double_quote :
    (line_no c : ℕ) (t : Text) (r : Text × Text)
    → take_single line_no t ≡ ok r
    → take_single line_no (double_quote c t) ≡ ok (cons_token c r)
unfolding take_single
take_single-double_quote line_no c t r h = elim (Bool-cases (c == b'\'')) [
  | inl e ↦ rw (e, h) (ap (λ d. ok (cons_token d r)) (sym ((==_iff c b'\'').0 e)))
  | inr e ↦ rw e (take_single_plain line_no c t r e h)
]

take_single_lem :
    (line_no : ℕ) (s rest : Text)
    → NoQuote rest
    → take_single line_no (in_single_quotes s rest) ≡ ok (s, rest)
unfolding in_single_quotes
take_single_lem line_no [] rest h = take_single_end line_no rest h
take_single_lem line_no (c ∷ s) rest h =
    take_single-double_quote line_no c (in_single_quotes s rest) (s, rest)
      (take_single_lem line_no s rest h)

unescape-escape_char : (c e : ℕ) → escape_char c ≡ some e → unescape e ≡ some c
unfolding escape_char unescape
unescape-escape_char c e h = ground arith

plain_char : (c : ℕ) → escape_char c ≡ none → (c == b'"' ≡ false) × (c == b'\\' ≡ false)
unfolding escape_char
plain_char c h = (ground arith, ground arith)

take_double_plain :
    (line_no c : ℕ) (s : Text) (r : Text × Text)
    → (c == b'"' ≡ false) × (c == b'\\' ≡ false)
    → take_double line_no s ≡ ok r
    → take_double line_no (c ∷ s) ≡ ok (cons_token c r)
unfolding take_double
take_double_plain line_no c [] r e h = cc
take_double_plain line_no c (d ∷ s) r (e, k) h = rw (e, k, h) refl

take_double-put_escape :
    (line_no c : ℕ) (o : Option ℕ) (t : Text) (r : Text × Text)
    → escape_char c ≡ o
    → take_double line_no t ≡ ok r
    → take_double line_no (put_escape o c t) ≡ ok (cons_token c r)
unfolding take_double
take_double-put_escape line_no c none t r e h = take_double_plain line_no c t r (plain_char c e) h
take_double-put_escape line_no c (some d) t r e h = rw (unescape-escape_char c d e, h) refl

take_double_lem :
    (line_no : ℕ) (s rest : Text) → take_double line_no (in_double_quotes s rest) ≡ ok (s, rest)
unfolding in_double_quotes take_double
take_double_lem line_no [] [] = refl
take_double_lem line_no [] (d ∷ rest) = refl
take_double_lem line_no (c ∷ s) rest =
    take_double-put_escape line_no c (escape_char c) (in_double_quotes s rest) (s, rest) refl
      (take_double_lem line_no s rest)

-- A text in single quotes, with its quotes doubled, and in double quotes, with line ends, tabs, NUL,
-- backslashes and quotes escaped, is read back as it was, up to the closing quote and not further.
-- Behind the closing single quote no other single quote may stand.
pub take_quoted_round_trip :
    (line_no : ℕ) (s rest : Text)
    → NoQuote rest
    → (take_quoted line_no (b'\'' ∷ in_single_quotes s rest) ≡ ok (s, rest))
      × (take_quoted line_no (b'"' ∷ in_double_quotes s rest) ≡ ok (s, rest))
unfolding take_quoted
take_quoted_round_trip line_no s rest h =
    (take_single_lem line_no s rest h, take_double_lem line_no s rest)
