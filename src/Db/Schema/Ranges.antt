-- ===== src/Db/Schema/Ranges.antt =====
-- The range of an integer column and of the type that the migration gives it.
use dip_rust.Base.{
  ℕ, ◌-◌, ◌^◌, ◌≤◌, ◌≡◌, refl, ap, ◌∙◌, Bool, true, false, Option, none, some, [], ◌∷◌, ◌++◌,
  append_assoc, arith, ==_iff, if◌then◌else◌, All,
}
use dip_rust.Db.Schema.{MysqlCol, mysql_type_to_pg, pg_type, paren_part, take_until, first_word}
use dip_rust.Db.Schema.Widths.{
  no_parens, All-no_paren, All-contains_char, paren_part-width, contains-digits,
}
use dip_rust.Db.Services.{position}
use dip_rust.Text.{
  Text, codes, text_eq, contains_char, contains, starts_with, before, is_whitespace, trim_start_by,
}

-- The integer types of MySQL, and how far they reach below and above zero.
pub data IntType : Type 0 where
  tinyint : IntType
  smallint : IntType
  mediumint : IntType
  integer : IntType
  bigint : IntType

abbrev pub int_name : IntType → Text
int_name tinyint = codes "tinyint"
int_name smallint = codes "smallint"
int_name mediumint = codes "mediumint"
int_name integer = codes "int"
int_name bigint = codes "bigint"

abbrev pub bits : IntType → ℕ
bits tinyint = 8
bits smallint = 16
bits mediumint = 24
bits integer = 32
bits bigint = 64

-- The least value is the first number's negative, the greatest the second number.
abbrev pub mysql_range : IntType → (unsigned : Bool) → ℕ × ℕ
mysql_range t true = (0, 2 ^ bits t - 1)
mysql_range t false = (2 ^ (bits t - 1), 2 ^ (bits t - 1) - 1)

abbrev pub int_type_text : IntType → (unsigned : Bool) → Text
int_type_text t true = int_name t ++ codes " unsigned"
int_type_text t false = int_name t

-- The range of a type of PostgreSQL that holds whole numbers.
unfoldable pub pg_range : Text → Option (ℕ × ℕ)
pg_range t =
    if text_eq t (codes "SMALLINT")
    then some (2 ^ 15, 2 ^ 15 - 1)
    else if text_eq t (codes "INTEGER")
    then some (2 ^ 31, 2 ^ 31 - 1)
    else if text_eq t (codes "BIGINT")
    then some (2 ^ 63, 2 ^ 63 - 1)
    else if text_eq t (codes "NUMERIC(20,0)")
    then some (10 ^ 20 - 1, 10 ^ 20 - 1)
    else none

-- Every value of the column has a place in a column of the type `t`.
abbrev pub Fits : IntType → Bool → Text → Type 0
Fits t unsigned pg =
    (range : ℕ × ℕ) × (pg_range pg ≡ some range)
    × ((mysql_range t unsigned).0 ≤ range.0)
    × ((mysql_range t unsigned).1 ≤ range.1)

-- How a column of whole numbers is written: its type, a display width or none, and `unsigned`.
abbrev pub width_text : Option Text → Text
width_text none = []
width_text (some digits) = b'(' ∷ (digits ++ b')' ∷ [])

abbrev pub sign_text : Bool → Text
sign_text true = codes " unsigned"
sign_text false = []

abbrev pub AreDigits : Option Text → Type 0
AreDigits none = Unit
AreDigits (some digits) = All (λ c. (48 ≤ c) × (c ≤ 57)) digits

abbrev pub int_column : Text → IntType → Option Text → (unsigned is_nullable : Bool) → MysqlCol
int_column name t width unsigned is_nullable = record {
  name = name;
  column_type = int_name t ++ (width_text width ++ sign_text unsigned);
  is_nullable = is_nullable;
  is_auto_increment = false;
}

name_parens :
    (t : IntType)
    → (contains_char b'(' (int_name t) ≡ false) × (contains_char b')' (int_name t) ≡ false)
unfolding contains_char
name_parens tinyint = (refl, refl)
name_parens smallint = (refl, refl)
name_parens mediumint = (refl, refl)
name_parens integer = (refl, refl)
name_parens bigint = (refl, refl)

-- A type by the parts that the code takes out of it.
type_of_parts :
    (to_lowercase : Text → Text) (col : MysqlCol) (base : Text) (unsigned : Bool)
    (part : Option Text)
    → text_eq col.column_type (codes "tinyint(1)") ≡ false
    → col.is_auto_increment ≡ false
    → to_lowercase (first_word (before b'(' col.column_type)) ≡ base
    → contains (codes "unsigned") col.column_type ≡ unsigned
    → paren_part col.column_type ≡ some part
    → mysql_type_to_pg to_lowercase col ≡ some (pg_type base unsigned part)
unfolding mysql_type_to_pg
type_of_parts to_lowercase col base unsigned part no_bool no_serial b u p =
    rw (no_bool, no_serial, b, u, p) refl

-- Only a signed `tinyint` of width 1 is taken for a truth value.
abbrev pub IsBoolean : IntType → Option Text → (unsigned : Bool) → Type 0
IsBoolean t width unsigned = (t ≡ tinyint) × (width ≡ some (codes "1")) × (unsigned ≡ false)

digits_text :
    (digits : Text) (u : Bool)
    → AreDigits (some digits)
    → ¬ ((digits ≡ codes "1") × (u ≡ false))
    → text_eq (digits ++ b')' ∷ sign_text u) (codes "1)") ≡ false
unfolding text_eq
digits_text [] u h n = refl
digits_text (c ∷ []) true h n = ground arith
digits_text (c ∷ []) false h n = ground (arith, n, ==_iff c 49)
digits_text (c ∷ d ∷ digits) u h n = ground (arith, no_parens d h.1.0)

no_boolean :
    (t : IntType) (width : Option Text) (u : Bool)
    → AreDigits width
    → ¬ IsBoolean t width u
    → text_eq (int_name t ++ (width_text width ++ sign_text u)) (codes "tinyint(1)") ≡ false
unfolding text_eq
no_boolean tinyint (some digits) u h n =
    ap (λ s. text_eq s (codes "1)")) (append_assoc digits (b')' ∷ []) (sign_text u))
    ∙ digits_text digits u h (λ k. n (refl, ap some k.0, k.1))
no_boolean tinyint none true h n = refl
no_boolean tinyint none false h n = refl
no_boolean smallint width u h n = refl
no_boolean mediumint width u h n = refl
no_boolean integer (some digits) u h n = refl
no_boolean integer none true h n = refl
no_boolean integer none false h n = refl
no_boolean bigint width u h n = refl

word_of :
    (t : IntType) (width : Option Text) (u : Bool)
    → first_word (before b'(' (int_name t ++ (width_text width ++ sign_text u))) ≡ int_name t
unfolding before take_until trim_start_by is_whitespace
word_of tinyint (some digits) u = refl
word_of tinyint none true = refl
word_of tinyint none false = refl
word_of smallint (some digits) u = refl
word_of smallint none true = refl
word_of smallint none false = refl
word_of mediumint (some digits) u = refl
word_of mediumint none true = refl
word_of mediumint none false = refl
word_of integer (some digits) u = refl
word_of integer none true = refl
word_of integer none false = refl
word_of bigint (some digits) u = refl
word_of bigint none true = refl
word_of bigint none false = refl

sign_of :
    (t : IntType) (width : Option Text) (u : Bool)
    → AreDigits width
    → contains (codes "unsigned") (int_name t ++ (width_text width ++ sign_text u)) ≡ u
unfolding contains starts_with
sign_of t (some digits) u h =
    behind_name t (b'(' ∷ ((digits ++ b')' ∷ []) ++ sign_text u))
    ∙ ap (contains (codes "unsigned")) (append_assoc digits (b')' ∷ []) (sign_text u))
    ∙ contains-digits digits (b')' ∷ sign_text u) h
    ∙ alone u
  where
    alone : (u : Bool) → contains (codes "unsigned") (b')' ∷ sign_text u) ≡ u
    alone true = refl
    alone false = refl

    behind_name :
        (t : IntType) (s : Text)
        → contains (codes "unsigned") (int_name t ++ s) ≡ contains (codes "unsigned") s
    behind_name tinyint s = refl
    behind_name smallint s = refl
    behind_name mediumint s = refl
    behind_name integer s = refl
    behind_name bigint s = refl
sign_of tinyint none true h = refl
sign_of tinyint none false h = refl
sign_of smallint none true h = refl
sign_of smallint none false h = refl
sign_of mediumint none true h = refl
sign_of mediumint none false h = refl
sign_of integer none true h = refl
sign_of integer none false h = refl
sign_of bigint none true h = refl
sign_of bigint none false h = refl

part_of :
    (t : IntType) (width : Option Text) (u : Bool)
    → AreDigits width
    → (part : Option Text) × (paren_part (int_name t ++ (width_text width ++ sign_text u))
        ≡ some part)
unfolding paren_part position
part_of t (some digits) u h =
    let (part, e) =
      paren_part-width (int_name t) digits (sign_text u)
        (All-contains_char b'(' (int_name t) (name_parens t).0)
        (All-contains_char b')' (int_name t) (name_parens t).1) (All-no_paren digits h) in
    (
      some part,
      ap (λ s. paren_part (int_name t ++ b'(' ∷ s)) (append_assoc digits (b')' ∷ []) (sign_text u))
          ∙ e,
    )
part_of tinyint none true h = (none, refl)
part_of tinyint none false h = (none, refl)
part_of smallint none true h = (none, refl)
part_of smallint none false h = (none, refl)
part_of mediumint none true h = (none, refl)
part_of mediumint none false h = (none, refl)
part_of integer none true h = (none, refl)
part_of integer none false h = (none, refl)
part_of bigint none true h = (none, refl)
part_of bigint none false h = (none, refl)

-- The type that a column of whole numbers gets, by the table of the code.
pg_type-Fits :
    (t : IntType) (unsigned : Bool) (part : Option Text)
    → ¬ ((t ≡ smallint) × (unsigned ≡ true))
    → Fits t unsigned (pg_type (int_name t) unsigned part)
unfolding pg_type pg_range text_eq
pg_type-Fits tinyint true part n = (_, refl, omega arith, omega arith)
pg_type-Fits tinyint false part n = (_, refl, omega arith, omega arith)
pg_type-Fits smallint true part n = absurd (n (refl, refl))
pg_type-Fits smallint false part n = (_, refl, omega arith, omega arith)
pg_type-Fits mediumint true part n = (_, refl, omega arith, omega arith)
pg_type-Fits mediumint false part n = (_, refl, omega arith, omega arith)
pg_type-Fits integer true part n = (_, refl, omega arith, omega arith)
pg_type-Fits integer false part n = (_, refl, omega arith, omega arith)
pg_type-Fits bigint true part n = (_, refl, omega arith, omega arith)
pg_type-Fits bigint false part n = (_, refl, omega arith, omega arith)

-- A column of whole numbers that does not count by itself, with any display width or none, signed or
-- not, gets a type that holds all its values, but for `smallint unsigned` and for `tinyint(1)`, which
-- counts as a truth value and becomes BOOLEAN. The types are `tinyint` to `bigint`, in lower case as
-- MySQL reports them, and `to_lowercase` leaves their names as they are.
pub mysql_type_to_pg-Fits :
    (to_lowercase : Text → Text) (name : Text) (t : IntType) (width : Option Text)
    (unsigned is_nullable : Bool)
    → to_lowercase (int_name t) ≡ int_name t
    → AreDigits width
    → ¬ IsBoolean t width unsigned
    → ¬ ((t ≡ smallint) × (unsigned ≡ true))
    → (pg : Text) × (mysql_type_to_pg to_lowercase (int_column name t width unsigned is_nullable)
        ≡ some pg)
      × Fits t unsigned pg
mysql_type_to_pg-Fits to_lowercase name t width unsigned is_nullable keeps h n m =
    let (part, e) = part_of t width unsigned h in
    (
      pg_type (int_name t) unsigned part,
      type_of_parts to_lowercase (int_column name t width unsigned is_nullable) (int_name t)
          unsigned part (no_boolean t width unsigned h n) refl
          (ap to_lowercase (word_of t width unsigned) ∙ keeps) (sign_of t width unsigned h) e,
      pg_type-Fits t unsigned part m,
    )
