-- ===== src/Db/Schema.antt =====
-- The schemas of both databases and the statements that create them, src/db/migrate.rs. What a row
-- of the catalogue holds is an argument; numbers that the catalogue gives are not negative but for
-- the scale of a number. `str::to_lowercase` is a parameter.
pub mod Indexes
pub mod Widths
pub mod Ranges
use mathlib.Core.Option
use dip_rust.Base.{
  ℤ, ℕ, ◌+◌, ◌-◌, Bool, false, ◌&&◌, Option, none, some, List, [], ◌∷◌, ◌++◌, ltb, ◌==◌,
  if◌then◌else◌, unwrap_or, take, drop, any,
}
use dip_rust.Db.Services.{both, position}
use dip_rust.Text.Decimal.{to_decimal, signed_decimal}
use dip_rust.Text.{
  Text, codes, text_eq, contains, is_whitespace, trim_start, trim, before, eq_ignore_ascii_case,
}

pub record MysqlCol : Type 0 where
  pub name : Text
  pub column_type : Text
  pub is_nullable : Bool
  pub is_auto_increment : Bool

pub record MysqlIdx : Type 0 where
  pub name : Text
  pub columns : List Text
  pub is_unique : Bool

pub record MysqlFk : Type 0 where
  pub name : Text
  pub column : Text
  pub ref_table : Text
  pub ref_column : Text

pub record PgCol : Type 0 where
  pub name : Text
  pub data_type : Text
  pub char_max_len : Option ℕ
  pub numeric_precision : Option ℕ
  pub numeric_scale : Option ℤ
  pub is_nullable : Bool
  pub is_serial : Bool

-- A row of the statistics: the index, the column, and NON_UNIQUE if it is a number.
pub record IndexRow : Type 0 where
  pub index_name : Text
  pub column_name : Text
  pub non_unique : Option ℕ

-- The column goes to the index of that name, or a new index is put at the end.
unfoldable pub add_index_row : IndexRow → List MysqlIdx → List MysqlIdx
add_index_row row [] =
    record {
      name = row.index_name;
      columns = row.column_name ∷ [];
      is_unique = unwrap_or row.non_unique 1 == 0;
    }
    ∷ []
add_index_row row (idx ∷ indexes) =
    let rest = add_index_row row indexes in
    if text_eq idx.name row.index_name
    then (record idx { columns = idx.columns ++ row.column_name ∷ [] }) ∷ indexes
    else idx ∷ rest

unfoldable pub indexes_onto : List MysqlIdx → List IndexRow → List MysqlIdx
indexes_onto indexes [] = indexes
indexes_onto indexes (row ∷ rows) = indexes_onto (add_index_row row indexes) rows

unfoldable pub mysql_get_indexes : List IndexRow → List MysqlIdx
mysql_get_indexes rows = indexes_onto [] rows

-- `split_whitespace().next()`, empty if there is none.
unfoldable pub take_until : (ℕ → Bool) → Text → Text
take_until test [] = []
take_until test (c ∷ s) = if test c then [] else c ∷ take_until test s

abbrev pub first_word : Text → Text
first_word s = take_until is_whitespace (trim_start s)

-- `&ct[s..=e]`, which panics (`none`) if it ends more than one place before it starts.
unfoldable pub slice_inclusive : ℕ → ℕ → Text → Option Text
slice_inclusive from to s =
    if ltb (to + 1) from then none else some (take (to + 1 - from) (drop from s))

-- The part in parentheses; `some none` if one of them is missing.
unfoldable pub paren_part : Text → Option (Option Text)
paren_part ct = elim (both (position (λ c. c == b'(') ct) (position (λ c. c == b')') ct)) [
  | none ↦ some none
  | some (s, e) ↦ elim (slice_inclusive s e ct) [ none ↦ none | some part ↦ some (some part) ]
]

abbrev pub one_of : Text → List Text → Bool
one_of s names = any (λ name. text_eq s name) names

-- A type with the part in parentheses behind it, or else another type.
abbrev pub with_part : Text → Text → Option Text → Text
with_part name alone none = alone
with_part name alone (some part) = name ++ part

-- The table of `mysql_type_to_pg`, by base type, sign, and the part in parentheses.
unfoldable pub pg_type : Text → Bool → Option Text → Text
pg_type base unsigned part =
    if one_of base (codes "tinyint" ∷ codes "smallint" ∷ [])
    then codes "SMALLINT"
    else if one_of base (codes "mediumint" ∷ codes "int" ∷ codes "integer" ∷ []) && unsigned
    then codes "BIGINT"
    else if one_of base (codes "mediumint" ∷ codes "int" ∷ codes "integer" ∷ [])
    then codes "INTEGER"
    else if text_eq base (codes "bigint") && unsigned
    then codes "NUMERIC(20,0)"
    else if text_eq base (codes "bigint")
    then codes "BIGINT"
    else if text_eq base (codes "float")
    then codes "REAL"
    else if one_of base (codes "double" ∷ codes "real" ∷ [])
    then codes "DOUBLE PRECISION"
    else if one_of base (codes "decimal" ∷ codes "numeric" ∷ [])
    then with_part (codes "NUMERIC") (codes "NUMERIC") part
    else if text_eq base (codes "char")
    then with_part (codes "CHAR") (codes "CHAR") part
    else if text_eq base (codes "varchar")
    then with_part (codes "VARCHAR") (codes "TEXT") part
    else if one_of base (
        codes "tinytext"
        ∷ codes "text"
        ∷ codes "mediumtext"
        ∷ codes "longtext"
        ∷ codes "enum"
        ∷ codes "set"
        ∷ [])
    then codes "TEXT"
    else if one_of base (
        codes "tinyblob"
        ∷ codes "blob"
        ∷ codes "mediumblob"
        ∷ codes "longblob"
        ∷ codes "binary"
        ∷ codes "varbinary"
        ∷ [])
    then codes "BYTEA"
    else if text_eq base (codes "bit")
    then with_part (codes "BIT") (codes "BIT") part
    else if text_eq base (codes "date")
    then codes "DATE"
    else if text_eq base (codes "time")
    then codes "TIME"
    else if text_eq base (codes "datetime")
    then codes "TIMESTAMP"
    else if text_eq base (codes "timestamp")
    then codes "TIMESTAMPTZ"
    else if text_eq base (codes "year")
    then codes "SMALLINT"
    else if text_eq base (codes "json")
    then codes "JSONB"
    else codes "TEXT"

module _ (to_lowercase : Text → Text) where
  -- A row of the columns: COLUMN_NAME, COLUMN_TYPE, IS_NULLABLE and EXTRA.
  unfoldable pub mysql_column : Text → Text → Text → Text → MysqlCol
  mysql_column name column_type nullable extra = record {
    name = name;
    column_type = column_type;
    is_nullable = eq_ignore_ascii_case nullable (codes "YES");
    is_auto_increment = contains (codes "auto_increment") (to_lowercase extra);
  }

  -- `none`: the slice of the part in parentheses panics.
  unfoldable pub mysql_type_to_pg : MysqlCol → Option Text
  unfolding pg_type
  mysql_type_to_pg col =
      let ct = col.column_type in
      if text_eq ct (codes "tinyint(1)")
      then some (codes "BOOLEAN")
      else if col.is_auto_increment
      then some (
          if contains (codes "bigint") (to_lowercase (trim (before b'(' ct)))
          then codes "BIGSERIAL"
          else codes "SERIAL")
      else Option.map
          (pg_type (to_lowercase (first_word (before b'(' ct))) (contains (codes "unsigned") ct))
          (paren_part ct)

-- A row of the columns of PostgreSQL; a value that the driver cannot read is empty or missing.
unfoldable pub pg_column : Text → Text → Option ℕ → Option ℕ → Option ℤ → Text → Option Text → PgCol
pg_column name data_type max_len precision scale nullable default = record {
  name = name;
  data_type = data_type;
  char_max_len = max_len;
  numeric_precision = precision;
  numeric_scale = scale;
  is_nullable = eq_ignore_ascii_case nullable (codes "YES");
  is_serial = unwrap_or (Option.map (λ d. contains (codes "nextval(") d) default) false;
}

abbrev pub decimal_type : Option ℕ → Option ℤ → Text
decimal_type (some p) (some s) =
    codes "DECIMAL(" ++ (to_decimal p ++ (b',' ∷ (signed_decimal s ++ codes ")")))
decimal_type (some p) none = codes "DECIMAL(" ++ (to_decimal p ++ codes ")")
decimal_type none s = codes "DECIMAL"

abbrev pub sized : Text → Text → Option ℕ → Text
sized name alone none = alone
sized name alone (some n) = name ++ (b'(' ∷ (to_decimal n ++ codes ")"))

unfoldable pub pg_type_to_mysql : PgCol → Text
pg_type_to_mysql col =
    let t = col.data_type in
    if col.is_serial
    then (if text_eq t (codes "bigint")
        then codes "BIGINT AUTO_INCREMENT"
        else codes "INT AUTO_INCREMENT")
    else if text_eq t (codes "boolean")
    then codes "TINYINT(1)"
    else if text_eq t (codes "smallint")
    then codes "SMALLINT"
    else if one_of t (codes "integer" ∷ codes "int" ∷ [])
    then codes "INT"
    else if text_eq t (codes "bigint")
    then codes "BIGINT"
    else if text_eq t (codes "real")
    then codes "FLOAT"
    else if text_eq t (codes "double precision")
    then codes "DOUBLE"
    else if one_of t (codes "numeric" ∷ codes "decimal" ∷ [])
    then decimal_type col.numeric_precision col.numeric_scale
    else if one_of t (codes "character" ∷ codes "char" ∷ [])
    then sized (codes "CHAR") (codes "CHAR(1)") col.char_max_len
    else if text_eq t (codes "character varying")
    then sized (codes "VARCHAR") (codes "LONGTEXT") col.char_max_len
    else if text_eq t (codes "text")
    then codes "LONGTEXT"
    else if text_eq t (codes "bytea")
    then codes "LONGBLOB"
    else if text_eq t (codes "date")
    then codes "DATE"
    else if one_of t (codes "time without time zone" ∷ codes "time with time zone" ∷ [])
    then codes "TIME"
    else if text_eq t (codes "timestamp without time zone")
    then codes "DATETIME"
    else if text_eq t (codes "timestamp with time zone")
    then codes "DATETIME"
    else if one_of t (codes "json" ∷ codes "jsonb" ∷ [])
    then codes "JSON"
    else if text_eq t (codes "uuid")
    then codes "CHAR(36)"
    else if one_of t (codes "bit" ∷ codes "bit varying" ∷ [])
    then codes "BIT(8)"
    else codes "LONGTEXT"
