-- ===== src/Db/Sql/Quoting.antt =====
-- What a database reads where the migration wrote a quoted name or text.
use dip_rust.Base.{
  ℕ, ◌≡◌, ap, ◌∙◌, inl, inr, Bool, true, false, Option, none, some, [], ◌∷◌, ◌++◌, append_assoc,
  arith, ◌==◌, if◌then◌else◌, ==_iff, Bool-cases,
}
use dip_rust.Db.Sql.{pg_ident, pg_string_literal, mysql_ident}
use dip_rust.Text.{Text, codes, starts_with, replace_char}

abbrev pub prepend : ℕ → Option (Text × Text) → Option (Text × Text)
prepend c none = none
prepend c (some (token, rest)) = some (c ∷ token, rest)

-- The reader of a quoted token behind its first quote: a doubled quote stands for one, and a single
-- one ends the token. It gives the token and what stands behind it; `quoted` says that the last
-- character was a quote.
unfoldable pub read_doubled : ℕ → (quoted : Bool) → Text → Option (Text × Text)
read_doubled q false [] = none
read_doubled q true [] = some ([], [])
read_doubled q false (c ∷ s) =
    let more = read_doubled q false s in
    let close = read_doubled q true s in if q == c then close else prepend c more
read_doubled q true (c ∷ s) =
    let more = read_doubled q false s in if q == c then prepend q more else some ([], c ∷ s)

-- A quoted token at the start of a text.
unfoldable pub read_quoted : ℕ → Text → Option (Text × Text)
unfolding read_doubled
read_quoted q [] = none
read_quoted q (c ∷ s) = if q == c then read_doubled q false s else none

==_self : (q : ℕ) → (q == q) ≡ true
==_self q = ground arith

read_doubled_quote :
    (q : ℕ) (s : Text) → read_doubled q false (q ∷ q ∷ s) ≡ prepend q (read_doubled q false s)
unfolding read_doubled
read_doubled_quote q s = rw (==_self q)

read_doubled_other :
    (q c : ℕ) (s : Text)
    → (q == c) ≡ false
    → read_doubled q false (c ∷ s) ≡ prepend c (read_doubled q false s)
unfolding read_doubled
read_doubled_other q c s h = rw h

read_doubled_end :
    (q : ℕ) (rest : Text)
    → starts_with (q ∷ []) rest ≡ false
    → read_doubled q false (q ∷ rest) ≡ some ([], rest)
unfolding read_doubled starts_with
read_doubled_end q [] h = rw (==_self q)
read_doubled_end q (c ∷ rest) h = ground (arith, ==_self q)

read_doubled-replace_char :
    (q : ℕ) (s rest : Text)
    → starts_with (q ∷ []) rest ≡ false
    → read_doubled q false (replace_char q (q ∷ q ∷ []) s ++ (q ∷ rest)) ≡ some (s, rest)
unfolding replace_char
read_doubled-replace_char q [] rest h = read_doubled_end q rest h
read_doubled-replace_char q (c ∷ s) rest h = elim (Bool-cases (q == c)) [
  | inl t ↦ rw (t, read_doubled_quote, read_doubled-replace_char q s rest h, (==_iff q c).0 t)
  | inr f ↦ rw (f, read_doubled_other q c _ f, read_doubled-replace_char q s rest h)
]

-- A quoted PostgreSQL identifier is read back as the name, and nothing of what follows belongs to
-- it, unless a quote follows.
pub pg_ident_lem :
    (name rest : Text)
    → starts_with (codes "\"") rest ≡ false
    → read_quoted b'"' (pg_ident name ++ rest) ≡ some (name, rest)
unfolding pg_ident read_quoted
pg_ident_lem name rest h =
    ap (λ t. read_doubled b'"' false t)
      (append_assoc (replace_char b'"' (codes "\"\"") name) (b'"' ∷ []) rest)
    ∙ read_doubled-replace_char b'"' name rest h

-- A quoted MySQL identifier is read back as the name, and nothing of what follows belongs to it,
-- unless a backquote follows.
pub mysql_ident_lem :
    (name rest : Text)
    → starts_with (codes "`") rest ≡ false
    → read_quoted b'`' (mysql_ident name ++ rest) ≡ some (name, rest)
unfolding mysql_ident read_quoted
mysql_ident_lem name rest h =
    ap (λ t. read_doubled b'`' false t)
      (append_assoc (replace_char b'`' (codes "``") name) (b'`' ∷ []) rest)
    ∙ read_doubled-replace_char b'`' name rest h

-- A PostgreSQL string literal is read back as the text, and nothing of what follows belongs to it,
-- unless a quote follows.
pub pg_string_literal_lem :
    (s rest : Text)
    → starts_with (codes "'") rest ≡ false
    → read_quoted b'\'' (pg_string_literal s ++ rest) ≡ some (s, rest)
unfolding pg_string_literal read_quoted
pg_string_literal_lem s rest h =
    ap (λ t. read_doubled b'\'' false t)
      (append_assoc (replace_char b'\'' (codes "''") s) (b'\'' ∷ []) rest)
    ∙ read_doubled-replace_char b'\'' s rest h
