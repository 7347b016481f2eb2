-- ===== src/Db/Migration/Tests.antt =====
-- A migration of one table.
use dip_rust.Base.{ℕ, ◌≡◌, refl, true, false, none, some, List, [], ◌∷◌, ◌++◌, map, get_elem?}
use dip_rust.Db.Cells.{Drivers}
use dip_rust.Db.Ddl.{build_pg_create_table}
use dip_rust.Db.Migration.Order.{log, Fills, row_count, migrate_mysql_to_pg_lem}
use dip_rust.Db.Migration.{
  MysqlTable, migrate_mysql_to_pg, index_statements, sequence_statements, fk_statements,
}
use dip_rust.Db.Schema.{MysqlCol, MysqlIdx}
use dip_rust.Db.Transfer.{finished}
use dip_rust.Text.{
  Text, codes, char_len, byte_len, text_eq, is_empty, strip_prefix, starts_with, ends_with,
  contains_char, contains, is_whitespace, trim_start_by, keep_unless, trim_end_by, trim_start,
  trim_end, trim, trim_char, split_once, cons_to_first, split, before, join, drop_cr, lines_from,
  lines, replace_char, ascii_lower, to_ascii_lowercase, eq_ignore_ascii_case,
}

-- Rows of texts, and no other values.
abbrev texts : Drivers
texts = record {
  Float = ℕ;
  Decimal = ℕ;
  Date = ℕ;
  Time = ℕ;
  DateTime = ℕ;
  Json = ℕ;
  is_special = λ _. false;
  float_text = λ _. [];
  decimal_text = λ _. [];
  date_text = λ _. [];
  time_text = λ _. [];
  time_nanos = λ n. n;
  date_time_text = λ _. [];
  date_time_nanos = λ n. n;
  json_text = λ _. [];
  from_utf8_lossy = λ b. b;
  Row = List Text;
  get_i8 = λ _ _. none;
  get_i16 = λ _ _. none;
  get_u16 = λ _ _. none;
  get_i32 = λ _ _. none;
  get_u32 = λ _ _. none;
  get_i64 = λ _ _. none;
  get_u64 = λ _ _. none;
  get_float = λ _ _. none;
  get_double = λ _ _. none;
  get_decimal = λ _ _. none;
  get_bool = λ _ _. none;
  get_string = λ row i. some (get_elem? row i);
  get_bytes = λ _ _. none;
  get_json = λ _ _. none;
  get_date = λ _ _. none;
  get_time = λ _ _. none;
  get_date_time = λ _ _. none;
  get_utc = λ _ _. none;
}

abbrev users : MysqlTable
users = record {
  name = codes "users";
  cols =
      record {
        name = codes "name";
        column_type = codes "varchar(255)";
        is_nullable = false;
        is_auto_increment = false;
      }
      ∷ [];
  pk = codes "name" ∷ [];
  idxs = record { name = codes "by_name"; columns = codes "name" ∷ []; is_unique = true } ∷ [];
  fks = [];
}

abbrev created : Text
created =
    codes
      "CREATE TABLE IF NOT EXISTS \"users\" (\n  \"name\" VARCHAR(255) NOT NULL,\n  PRIMARY KEY (\"name\")\n)"

abbrev rows : MysqlTable → List (List Text)
rows _ = (codes "O'Hara" ∷ []) ∷ (codes "Ann" ∷ []) ∷ []

users_ddl :
    map (λ (t : MysqlTable). build_pg_create_table (λ s. s) t.name t.cols t.pk) (users ∷ [])
    ≡ map some (created ∷ [])
unfolding build_pg_create_table dip_rust.Db.Schema.mysql_type_to_pg text_eq
    dip_rust.Db.Schema.paren_part dip_rust.Db.Services.position dip_rust.Db.Schema.slice_inclusive
    dip_rust.Db.Sql.pg_ident replace_char join dip_rust.Db.Ddl.column_line
    dip_rust.Db.Schema.take_until trim_start_by before is_whitespace
users_ddl = refl

migrated :
    migrate_mysql_to_pg texts log (λ s. s) (λ t. map some (rows t)) (users ∷ []) []
    ≡ finished 2 (
        created
        ∷ codes "TRUNCATE TABLE \"users\" RESTART IDENTITY CASCADE"
        ∷ codes "INSERT INTO \"users\" (\"name\") VALUES ('O''Hara'), ('Ann')"
        ∷ codes "CREATE UNIQUE INDEX IF NOT EXISTS \"by_name\" ON \"users\" (\"name\")"
        ∷ [])
unfolding migrate_mysql_to_pg dip_rust.Db.Migration.create_tables build_pg_create_table
    dip_rust.Db.Schema.mysql_type_to_pg dip_rust.Text.text_eq dip_rust.Db.Schema.paren_part
    dip_rust.Db.Services.position dip_rust.Db.Schema.slice_inclusive
    dip_rust.Db.Migration.transfer_tables dip_rust.Db.Transfer.transfer_mysql_to_pg
    dip_rust.Db.Migration.execute_ignored fk_statements sequence_statements index_statements
    dip_rust.Db.Sql.pg_ident dip_rust.Db.Ddl.build_pg_index dip_rust.Text.replace_char
    dip_rust.Text.join dip_rust.Db.Cells.cell_of_type dip_rust.Db.Cells.cell_to_pg_literal
    dip_rust.Db.Cells.extract_mysql_cell dip_rust.Db.Ddl.column_line dip_rust.Db.Ddl.create_table
    dip_rust.Db.Ddl.ident_list dip_rust.Db.Ddl.pg_lines dip_rust.Db.Ddl.pk_lines
    dip_rust.Db.Schema.pg_type dip_rust.Db.Schema.take_until dip_rust.Db.Sql.pg_string_literal
    dip_rust.Db.Transfer.cells_from dip_rust.Db.Transfer.insert_pg_batch
    dip_rust.Db.Transfer.insert_sql dip_rust.Db.Transfer.stream_rows dip_rust.Text.before
    dip_rust.Text.is_whitespace dip_rust.Text.contains dip_rust.Text.starts_with
    dip_rust.Text.trim_start_by
migrated = refl

migrate_mysql_to_pg_lem_example :
    (part : List Text) × (migrate_mysql_to_pg texts log
        (λ s. s)
        (λ t. map some (rows t))
        (users ∷ [])
        []
      ≡ finished (row_count texts rows (users ∷ [])) (
          (created ∷ [])
          ++ (part
              ++ (index_statements (users ∷ [])
                  ++ (sequence_statements (users ∷ []) ++ fk_statements (users ∷ []))))))
    × Fills texts (λ s. s) rows (users ∷ []) part
migrate_mysql_to_pg_lem_example =
    migrate_mysql_to_pg_lem texts (λ s. s) rows (users ∷ []) (created ∷ []) users_ddl
