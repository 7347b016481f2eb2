-- ===== src/Text.antt =====
-- The parts of the standard library's `str` that the program uses. A text is the list of its
-- Unicode code points, so that all texts are UTF-8 by construction; where the program counts
-- bytes, `byte_len` does.
pub mod Equality
pub mod Affix
pub mod Decimal
pub mod Split
pub mod Utf8
pub mod Trim
pub mod Lines
use Prim.Native.Char.{code}
use Prim.Native.String.{String}
use dip_rust.Base.{
  ℕ, ◌+◌, Bool, true, false, ◌&&◌, ◌||◌, List, [], ◌∷◌, ◌++◌, map, Option, none, some, ltb, leb,
  ◌==◌, if◌then◌else◌,
}

abbrev pub Text : Type 0
Text = List ℕ

-- A literal.
abbrev pub codes : String → Text
codes String.[] = []
codes (String.◌∷◌ c s) = code c ∷ codes s

-- `char::len_utf8` and `str::len`.
abbrev pub char_len : ℕ → ℕ
char_len c = if ltb c 0x80 then 1 else if ltb c 0x800 then 2 else if ltb c 0x1_0000 then 3 else 4

unfoldable pub byte_len : Text → ℕ
byte_len [] = 0
byte_len (c ∷ s) = char_len c + byte_len s

-- `==` on `str`.
unfoldable pub text_eq : Text → Text → Bool
text_eq [] [] = true
text_eq [] (y ∷ t) = false
text_eq (x ∷ s) [] = false
text_eq (x ∷ s) (y ∷ t) = x == y && text_eq s t

-- `str::is_empty`.
abbrev pub is_empty : Text → Bool
is_empty [] = true
is_empty (c ∷ s) = false

-- `strip_prefix`, `starts_with`, and the same for suffixes: a suffix is a tail of the text.
unfoldable pub strip_prefix : Text → Text → Option Text
strip_prefix [] s = some s
strip_prefix (p ∷ ps) [] = none
strip_prefix (p ∷ ps) (c ∷ s) = if p == c then strip_prefix ps s else none

unfoldable pub starts_with : Text → Text → Bool
starts_with [] s = true
starts_with (p ∷ ps) [] = false
starts_with (p ∷ ps) (c ∷ s) = p == c && starts_with ps s

unfoldable pub ends_with : Text → Text → Bool
unfolding text_eq
ends_with suffix [] = text_eq suffix []
ends_with suffix (c ∷ s) = text_eq suffix (c ∷ s) || ends_with suffix s

-- `str::contains`, for a character and for a text.
unfoldable pub contains_char : ℕ → Text → Bool
contains_char c [] = false
contains_char c (d ∷ s) = c == d || contains_char c s

unfoldable pub contains : Text → Text → Bool
unfolding starts_with
contains pat [] = starts_with pat []
contains pat (c ∷ s) = starts_with pat (c ∷ s) || contains pat s

-- `char::is_whitespace`: the code points with the property White_Space.
unfoldable pub is_whitespace : ℕ → Bool
is_whitespace c =
    (leb 9 c && leb c 13)
    || c == 32
    || c == 0x85
    || c == 0xa0
    || c == 0x1680
    || (leb 0x2000 c && leb c 0x200a)
    || c == 0x2028
    || c == 0x2029
    || c == 0x202f
    || c == 0x205f
    || c == 0x3000

-- `trim_start_matches(test)` and `trim_end_matches(test)`.
unfoldable pub trim_start_by : (ℕ → Bool) → Text → Text
trim_start_by test [] = []
trim_start_by test (c ∷ s) = if test c then trim_start_by test s else c ∷ s

-- Keeps a character if something kept stands behind it or it fails the test.
abbrev pub keep_unless : Bool → ℕ → Text → Text
keep_unless drops c [] = if drops then [] else c ∷ []
keep_unless drops c (d ∷ s) = c ∷ d ∷ s

unfoldable pub trim_end_by : (ℕ → Bool) → Text → Text
trim_end_by test [] = []
trim_end_by test (c ∷ s) = keep_unless (test c) c (trim_end_by test s)

abbrev pub trim_start : Text → Text
trim_start = trim_start_by is_whitespace

abbrev pub trim_end : Text → Text
trim_end = trim_end_by is_whitespace

abbrev pub trim : Text → Text
trim s = trim_end (trim_start s)

-- `trim_matches(c)` for one character.
abbrev pub trim_char : ℕ → Text → Text
trim_char q s = trim_end_by (λ c. q == c) (trim_start_by (λ c. q == c) s)

-- `split_once(sep)`: what stands before and behind the first `sep`.
unfoldable pub split_once : ℕ → Text → Option (Text × Text)
split_once sep [] = none
split_once sep (c ∷ s) =
    if sep == c
    then some ([], s)
    else elim (split_once sep s) [ none ↦ none | some (l, r) ↦ some (c ∷ l, r) ]

-- `split(sep)`: always one part or more.
abbrev pub cons_to_first : ℕ → List Text → List Text
cons_to_first c [] = (c ∷ []) ∷ []
cons_to_first c (p ∷ ps) = (c ∷ p) ∷ ps

unfoldable pub split : ℕ → Text → List Text
split sep [] = [] ∷ []
split sep (c ∷ s) = let rest = split sep s in if sep == c then [] ∷ rest else cons_to_first c rest

-- `split(sep).next()`: the text up to the first `sep`.
unfoldable pub before : ℕ → Text → Text
before sep [] = []
before sep (c ∷ s) = if sep == c then [] else c ∷ before sep s

-- `join(sep)`.
unfoldable pub join : Text → List Text → Text
join sep [] = []
join sep (p ∷ []) = p
join sep (p ∷ q ∷ ps) = p ++ (sep ++ join sep (q ∷ ps))

-- `str::lines`: the parts that `\n` ends, each without a `\r` before it; a last part that no `\n`
-- ends stays as it is, and is no line if it is empty.
unfoldable pub drop_cr : Text → Text
drop_cr [] = []
drop_cr (c ∷ []) = if c == b'\r' then [] else c ∷ []
drop_cr (c ∷ d ∷ s) = c ∷ drop_cr (d ∷ s)

unfoldable pub lines_from : Text → Text → List Text
lines_from line [] = if is_empty line then [] else line ∷ []
lines_from line (c ∷ s) = elim (c == b'\n') [
  | true ↦ drop_cr line ∷ lines_from [] s
  | false ↦ lines_from (line ++ c ∷ []) s
]

abbrev pub lines : Text → List Text
lines = lines_from []

-- `replace(c, by)` for one character.
unfoldable pub replace_char : ℕ → Text → Text → Text
replace_char c by [] = []
replace_char c by (d ∷ s) = (if c == d then by else d ∷ []) ++ replace_char c by s

-- `to_ascii_lowercase`, and `eq_ignore_ascii_case`.
abbrev pub ascii_lower : ℕ → ℕ
ascii_lower c = if leb b'A' c && leb c b'Z' then c + 32 else c

abbrev pub to_ascii_lowercase : Text → Text
to_ascii_lowercase = map ascii_lower

unfoldable pub eq_ignore_ascii_case : Text → Text → Bool
unfolding text_eq
eq_ignore_ascii_case s t = text_eq (to_ascii_lowercase s) (to_ascii_lowercase t)
