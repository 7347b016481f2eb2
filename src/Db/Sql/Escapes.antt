-- ===== src/Db/Sql/Escapes.antt =====
-- What MySQL reads where the migration wrote a string, with its backslash escapes.
use dip_rust.Base.{
  ℕ, ◌≡◌, refl, sym, ap, ◌∙◌, ◌⊎◌, inl, inr, false, ◌||◌, Option, none, some, [], ◌∷◌, ◌++◌,
  append_assoc, arith, ◌==◌, if◌then◌else◌,
}
use dip_rust.Db.Sql.Quoting.{prepend}
use dip_rust.Db.Sql.{mysql_escape_str, mysql_string_literal}
use dip_rust.Text.{Text, codes, starts_with, replace_char}

-- What the last character was: a backslash, a quote, or neither.
pub data Mark : Type 0 where
  plain : Mark
  slash : Mark
  quote : Mark

-- The character that an escape stands for.
unfoldable pub unescape : ℕ → ℕ
unescape c =
    if c == b'0'
    then 0
    else if c == b'n'
    then b'\n'
    else if c == b'r'
    then b'\r'
    else if c == b't'
    then b'\t'
    else if c == b'b'
    then 8
    else if c == b'Z'
    then 26
    else c

-- The reader of a MySQL string behind its first quote.
unfoldable pub read_escaped : Mark → Text → Option (Text × Text)
unfolding unescape
read_escaped plain [] = none
read_escaped slash [] = none
read_escaped quote [] = some ([], [])
read_escaped plain (c ∷ s) =
    let more = read_escaped plain s in
    let escape = read_escaped slash s in
    let close = read_escaped quote s in
    if c == b'\'' then close else if c == b'\\' then escape else prepend c more
read_escaped slash (c ∷ s) =
    let more = read_escaped plain s in
    if c == b'%' || c == b'_' then prepend b'\\' (prepend c more) else prepend (unescape c) more
read_escaped quote (c ∷ s) =
    let more = read_escaped plain s in if c == b'\'' then prepend c more else some ([], c ∷ s)

unfoldable pub read_mysql_string : Text → Option (Text × Text)
unfolding read_escaped
read_mysql_string [] = none
read_mysql_string (c ∷ s) = if c == b'\'' then read_escaped plain s else none

replace_char-append :
    (c : ℕ) (by s t : Text)
    → replace_char c by (s ++ t) ≡ replace_char c by s ++ replace_char c by t
unfolding replace_char
replace_char-append c by [] t = refl
replace_char-append c by (d ∷ s) t =
    rw (replace_char-append c by s t) (
      sym
        (append_assoc (if c == d then by else d ∷ []) (replace_char c by s) (replace_char c by t)))

mysql_escape_str-append :
    (s t : Text) → mysql_escape_str (s ++ t) ≡ mysql_escape_str s ++ mysql_escape_str t
unfolding mysql_escape_str
mysql_escape_str-append s t = rw (
  replace_char-append, replace_char-append, replace_char-append, replace_char-append,
  replace_char-append,
)

-- Escaping goes character by character, although it is done in five passes.
mysql_escape_str-cons :
    (c : ℕ) (s : Text) → mysql_escape_str (c ∷ s) ≡ mysql_escape_str (c ∷ []) ++ mysql_escape_str s
unfolding mysql_escape_str
mysql_escape_str-cons c s = mysql_escape_str-append (c ∷ []) s

special_or_plain :
    (c : ℕ)
    → (c ≡ 92)
      ⊎ ((c ≡ 39)
          ⊎ ((c ≡ 0)
              ⊎ ((c ≡ 10)
                  ⊎ ((c ≡ 13)
                      ⊎ (((92 == c) ≡ false)
                          × ((39 == c) ≡ false)
                          × ((0 == c) ≡ false)
                          × ((10 == c) ≡ false)
                          × ((13 == c) ≡ false)
                          × ((c == 92) ≡ false)
                          × ((c == 39) ≡ false))))))
special_or_plain c = ground arith

read_escaped-mysql_escape_str :
    (c : ℕ) (s : Text)
    → read_escaped plain (mysql_escape_str (c ∷ []) ++ s) ≡ prepend c (read_escaped plain s)
unfolding read_escaped mysql_escape_str replace_char unescape
read_escaped-mysql_escape_str c s = elim (special_or_plain c) [
  | inl e ↦ rw e refl
  | inr k ↦ elim k [
    | inl e ↦ rw e refl
    | inr k ↦ elim k [
      | inl e ↦ rw e refl
      | inr k ↦ elim k [
        | inl e ↦ rw e refl
        | inr k ↦ elim k [
          | inl e ↦ rw e refl
          | inr (a, b, d, e, f, g, h) ↦ rw (a, b, d, e, f, g, h)
        ]
      ]
    ]
  ]
]

read_escaped_end :
    (rest : Text)
    → starts_with (codes "'") rest ≡ false
    → read_escaped plain (b'\'' ∷ rest) ≡ some ([], rest)
unfolding read_escaped starts_with
read_escaped_end [] h = refl
read_escaped_end (c ∷ rest) h = ground arith

read_escaped-all :
    (s rest : Text)
    → starts_with (codes "'") rest ≡ false
    → read_escaped plain (mysql_escape_str s ++ (b'\'' ∷ rest)) ≡ some (s, rest)
read_escaped-all [] rest h = unfold mysql_escape_str replace_char in read_escaped_end rest h
read_escaped-all (c ∷ s) rest h = rw (
  mysql_escape_str-cons c s,
  append_assoc (mysql_escape_str (c ∷ [])) (mysql_escape_str s) (b'\'' ∷ rest),
  read_escaped-mysql_escape_str,
  read_escaped-all s rest h,
)

-- A MySQL string literal is read back as the text, whatever quotes, backslashes, line ends and NULs
-- it holds, and nothing of what follows belongs to it, unless a quote follows.
pub mysql_string_literal_lem :
    (s rest : Text)
    → starts_with (codes "'") rest ≡ false
    → read_mysql_string (mysql_string_literal s ++ rest) ≡ some (s, rest)
unfolding read_mysql_string mysql_string_literal
mysql_string_literal_lem s rest h =
    ap (read_escaped plain) (append_assoc (mysql_escape_str s) (b'\'' ∷ []) rest)
    ∙ read_escaped-all s rest h
