-- ===== src/Db/Cells.antt =====
-- The values of a migration and their literals, src/db/migrate.rs. The types of the drivers and of
-- the crates for dates, decimals and JSON are parameters, with the texts that those print.
use dip_rust.Base.{
  ℤ, pos, negsuc, ℕ, Bool, true, not, ◌&&◌, Option, none, some, List, [], ◌∷◌, ◌++◌, ◌==◌,
  if◌then◌else◌,
}
use dip_rust.Db.Schema.{MysqlCol, PgCol, one_of, first_word}
use dip_rust.Db.Sql.{pg_string_literal, mysql_string_literal, hex_encode, push_subsecond}
use dip_rust.Text.Decimal.{to_decimal, signed_decimal}
use dip_rust.Text.{Text, codes, text_eq, contains, before}

pub record Drivers : Type 1 where
  pub Float : Type 0
  pub Decimal : Type 0
  pub Date : Type 0
  pub Time : Type 0
  pub DateTime : Type 0
  pub Json : Type 0
  -- `is_nan` or `is_infinite`, and what `to_string` and the formats of the code print.
  pub is_special : Float → Bool
  pub float_text : Float → Text
  pub decimal_text : Decimal → Text
  pub date_text : Date → Text
  pub time_text : Time → Text
  pub time_nanos : Time → ℕ
  pub date_time_text : DateTime → Text
  pub date_time_nanos : DateTime → ℕ
  pub json_text : Json → Text
  pub from_utf8_lossy : List ℕ → Text
  -- A row: `try_get` of an optional value of a type at an index; the outer `none` is an error.
  pub Row : Type 0
  pub get_i8 : Row → ℕ → Option (Option ℤ)
  pub get_i16 : Row → ℕ → Option (Option ℤ)
  pub get_u16 : Row → ℕ → Option (Option ℤ)
  pub get_i32 : Row → ℕ → Option (Option ℤ)
  pub get_u32 : Row → ℕ → Option (Option ℤ)
  pub get_i64 : Row → ℕ → Option (Option ℤ)
  pub get_u64 : Row → ℕ → Option (Option ℕ)
  pub get_float : Row → ℕ → Option (Option Float)
  pub get_double : Row → ℕ → Option (Option Float)
  pub get_decimal : Row → ℕ → Option (Option Decimal)
  pub get_bool : Row → ℕ → Option (Option Bool)
  pub get_string : Row → ℕ → Option (Option Text)
  pub get_bytes : Row → ℕ → Option (Option (List ℕ))
  pub get_json : Row → ℕ → Option (Option Json)
  pub get_date : Row → ℕ → Option (Option Date)
  pub get_time : Row → ℕ → Option (Option Time)
  pub get_date_time : Row → ℕ → Option (Option DateTime)
  -- A time with an offset, read and turned into the date and time in UTC.
  pub get_utc : Row → ℕ → Option (Option DateTime)

module _ (D : Drivers) where
  open D use {
    Float, Decimal, Date, Time, DateTime, Json, is_special, float_text, decimal_text, date_text,
    time_text, time_nanos, date_time_text, date_time_nanos, json_text, from_utf8_lossy, Row, get_i8,
    get_i16, get_u16, get_i32, get_u32, get_i64, get_u64, get_float, get_double, get_decimal,
    get_bool, get_string, get_bytes, get_json, get_date, get_time, get_date_time, get_utc,
  }

  pub data CellValue : Type 0 where
    null : CellValue
    bool : Bool → CellValue
    int : ℤ → CellValue
    uint : ℕ → CellValue
    float : Float → CellValue
    decimal : Decimal → CellValue
    text : Text → CellValue
    bytes : List ℕ → CellValue
    date : Date → CellValue
    time : Time → CellValue
    date_time : DateTime → CellValue
    json : Json → CellValue

  -- `row.try_get(idx)?.map(cell).unwrap_or(CellValue::Null)`.
  abbrev pub cell_or_null : {A : Type 0} → (A → CellValue) → Option (Option A) → Option CellValue
  cell_or_null cell none = none
  cell_or_null cell (some none) = some null
  cell_or_null cell (some (some a)) = some (cell a)

  -- The same where an error is null too.
  abbrev pub cell_always : {A : Type 0} → (A → CellValue) → Option (Option A) → Option CellValue
  cell_always cell none = some null
  cell_always cell (some none) = some null
  cell_always cell (some (some a)) = some (cell a)

  abbrev pub is_nonzero : ℤ → Bool
  is_nonzero (pos n) = not (n == 0)
  is_nonzero (negsuc n) = true

  -- Text, or else bytes that are read as text.
  abbrev pub text_or_bytes : Row → ℕ → Option CellValue
  text_or_bytes row idx = elim (get_string row idx) [
    | some v ↦ cell_or_null text (some v)
    | none ↦ cell_or_null (λ b. text (from_utf8_lossy b)) (get_bytes row idx)
  ]

  -- The table of `extract_mysql_cell`, by base type and sign.
  unfoldable pub cell_of_type : Row → ℕ → Text → Bool → Option CellValue
  cell_of_type row idx base unsigned =
      if one_of base (codes "tinyint" ∷ codes "smallint" ∷ []) && unsigned
      then cell_or_null int (get_u16 row idx)
      else if one_of base (codes "tinyint" ∷ codes "smallint" ∷ [])
      then cell_or_null int (get_i16 row idx)
      else if one_of base (codes "mediumint" ∷ codes "int" ∷ codes "integer" ∷ []) && unsigned
      then cell_or_null int (get_u32 row idx)
      else if one_of base (codes "mediumint" ∷ codes "int" ∷ codes "integer" ∷ [])
      then cell_or_null int (get_i32 row idx)
      else if text_eq base (codes "bigint") && unsigned
      then cell_or_null uint (get_u64 row idx)
      else if text_eq base (codes "bigint")
      then cell_or_null int (get_i64 row idx)
      else if text_eq base (codes "float")
      then cell_or_null float (get_float row idx)
      else if one_of base (codes "double" ∷ codes "real" ∷ [])
      then cell_or_null float (get_double row idx)
      else if one_of base (codes "decimal" ∷ codes "numeric" ∷ [])
      then cell_or_null decimal (get_decimal row idx)
      else if text_eq base (codes "year")
      then cell_or_null int (get_u16 row idx)
      else if one_of base (
          codes "varchar"
          ∷ codes "char"
          ∷ codes "tinytext"
          ∷ codes "text"
          ∷ codes "mediumtext"
          ∷ codes "longtext"
          ∷ codes "enum"
          ∷ codes "set"
          ∷ [])
      then text_or_bytes row idx
      else if text_eq base (codes "json")
      then cell_or_null json (get_json row idx)
      else if one_of base (
          codes "tinyblob"
          ∷ codes "blob"
          ∷ codes "mediumblob"
          ∷ codes "longblob"
          ∷ codes "binary"
          ∷ codes "varbinary"
          ∷ codes "bit"
          ∷ [])
      then cell_or_null bytes (get_bytes row idx)
      else if text_eq base (codes "date")
      then cell_or_null date (get_date row idx)
      else if text_eq base (codes "time")
      then cell_always time (get_time row idx)
      else if one_of base (codes "datetime" ∷ codes "timestamp" ∷ [])
      then cell_or_null date_time (get_date_time row idx)
      else cell_always text (get_string row idx)

  unfoldable pub extract_mysql_cell : (Text → Text) → Row → ℕ → MysqlCol → Option CellValue
  unfolding cell_of_type
  extract_mysql_cell to_lowercase row idx col =
      let ct = col.column_type in
      if text_eq ct (codes "tinyint(1)")
      then cell_or_null (λ n. bool (is_nonzero n)) (get_i8 row idx)
      else cell_of_type row idx (to_lowercase (first_word (before b'(' ct)))
          (contains (codes "unsigned") ct)

  unfoldable pub extract_pg_cell : Row → ℕ → PgCol → Option CellValue
  extract_pg_cell row idx col =
      let t = col.data_type in
      if text_eq t (codes "boolean")
      then cell_or_null bool (get_bool row idx)
      else if text_eq t (codes "smallint")
      then cell_or_null int (get_i16 row idx)
      else if one_of t (codes "integer" ∷ codes "int" ∷ [])
      then cell_or_null int (get_i32 row idx)
      else if text_eq t (codes "bigint")
      then cell_or_null int (get_i64 row idx)
      else if text_eq t (codes "real")
      then cell_or_null float (get_float row idx)
      else if text_eq t (codes "double precision")
      then cell_or_null float (get_double row idx)
      else if one_of t (codes "numeric" ∷ codes "decimal" ∷ [])
      then cell_or_null decimal (get_decimal row idx)
      else if one_of t (codes "character" ∷ codes "character varying" ∷ codes "text" ∷ [])
      then cell_or_null text (get_string row idx)
      else if text_eq t (codes "bytea")
      then cell_or_null bytes (get_bytes row idx)
      else if text_eq t (codes "date")
      then cell_or_null date (get_date row idx)
      else if one_of t (codes "time without time zone" ∷ codes "time with time zone" ∷ [])
      then cell_or_null time (get_time row idx)
      else if text_eq t (codes "timestamp without time zone")
      then cell_or_null date_time (get_date_time row idx)
      else if text_eq t (codes "timestamp with time zone")
      then cell_or_null date_time (get_utc row idx)
      else if one_of t (codes "json" ∷ codes "jsonb" ∷ [])
      then cell_or_null json (get_json row idx)
      else if text_eq t (codes "uuid")
      then cell_always text (get_string row idx)
      else if one_of t (codes "bit" ∷ codes "bit varying" ∷ [])
      then cell_or_null bytes (get_bytes row idx)
      else cell_always text (get_string row idx)

  abbrev pub in_quotes : Text → Text
  in_quotes s = b'\'' ∷ (s ++ (b'\'' ∷ []))

  unfoldable pub time_literal : Time → Text
  time_literal t = push_subsecond (time_text t) (time_nanos t)

  unfoldable pub datetime_literal : DateTime → Text
  datetime_literal dt = push_subsecond (date_time_text dt) (date_time_nanos dt)

  unfoldable pub cell_to_pg_literal : CellValue → Text
  unfolding time_literal datetime_literal
  cell_to_pg_literal null = codes "NULL"
  cell_to_pg_literal (bool b) = if b then codes "TRUE" else codes "FALSE"
  cell_to_pg_literal (int n) = signed_decimal n
  cell_to_pg_literal (uint n) = to_decimal n
  cell_to_pg_literal (float f) = if is_special f then codes "NULL" else float_text f
  cell_to_pg_literal (decimal d) = decimal_text d
  cell_to_pg_literal (text s) = pg_string_literal s
  cell_to_pg_literal (bytes b) = in_quotes (codes "\\x" ++ hex_encode b)
  cell_to_pg_literal (date d) = in_quotes (date_text d)
  cell_to_pg_literal (time t) = in_quotes (time_literal t)
  cell_to_pg_literal (date_time dt) = in_quotes (datetime_literal dt)
  cell_to_pg_literal (json j) = pg_string_literal (json_text j)

  unfoldable pub cell_to_mysql_literal : CellValue → Text
  unfolding time_literal datetime_literal
  cell_to_mysql_literal null = codes "NULL"
  cell_to_mysql_literal (bool b) = if b then codes "1" else codes "0"
  cell_to_mysql_literal (int n) = signed_decimal n
  cell_to_mysql_literal (uint n) = to_decimal n
  cell_to_mysql_literal (float f) = float_text f
  cell_to_mysql_literal (decimal d) = decimal_text d
  cell_to_mysql_literal (text s) = mysql_string_literal s
  cell_to_mysql_literal (bytes b) = b'X' ∷ in_quotes (hex_encode b)
  cell_to_mysql_literal (date d) = in_quotes (date_text d)
  cell_to_mysql_literal (time t) = in_quotes (time_literal t)
  cell_to_mysql_literal (date_time dt) = in_quotes (datetime_literal dt)
  cell_to_mysql_literal (json j) = mysql_string_literal (json_text j)
