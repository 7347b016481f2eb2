-- ===== src/Db/Tests.antt =====
-- Services, statements and transfers at concrete values.
use dip_rust.Base.{
  is_nil, ℕ, suc, ◌≡◌, refl, arith, true, false, Option, none, some, List, [], ◌∷◌, ◌++◌, map,
  if◌then◌else◌, filter, find,
}
use dip_rust.Db.Ddl.Statements.{read_fk, build_pg_fk_lem}
use dip_rust.Db.Ddl.{build_pg_fk}
use dip_rust.Db.Schema.Indexes.{has_name, is_for, index_of_rows, find-mysql_get_indexes}
use dip_rust.Db.Schema.Ranges.{
  integer, smallint, int_column, Fits, IsBoolean, mysql_type_to_pg-Fits,
}
use dip_rust.Db.Schema.{
  MysqlCol, MysqlIdx, MysqlFk, PgCol, IndexRow, mysql_get_indexes, mysql_type_to_pg,
  pg_type_to_mysql,
}
use dip_rust.Env.Container.{Entry, assigned, no_string}
use dip_rust.Env.{Env, lookup}
use dip_rust.Db.Services.Selection.{select_services_lem}
use dip_rust.Db.Services.{
  DbService, DbConfig, Backend, mysql, postgres, Pick, chosen, refused, is_named, no_services,
  not_found, select_services, detect,
}
use dip_rust.Db.Sql.Escapes.{read_mysql_string, mysql_string_literal_lem}
use dip_rust.Db.Sql.{
  pg_ident, mysql_ident, pg_string_literal, mysql_string_literal, hex_encode, push_subsecond,
}
use dip_rust.Db.Transfer.Batches.{insert_all, stream_rows_lem, stream_rows-failed}
use dip_rust.Db.Transfer.Chunks.{concat, IsChunked}
use dip_rust.Db.Transfer.{failed, stream_rows}
use dip_rust.Text.Decimal.{decimal_value}
use dip_rust.Text.{
  Text, codes, char_len, byte_len, text_eq, is_empty, strip_prefix, starts_with, ends_with,
  contains, is_whitespace, trim_start_by, keep_unless, trim_end_by, trim_start, trim_end, trim,
  trim_char, split_once, cons_to_first, split, before, join, drop_cr, lines_from, lines,
  replace_char, ascii_lower, to_ascii_lowercase, eq_ignore_ascii_case,
}

mysql_string_literal_lem_example :
    read_mysql_string (mysql_string_literal (codes "it\\'s\n") ++ codes ")")
    ≡ some (codes "it\\'s\n", codes ")")
unfolding starts_with
mysql_string_literal_lem_example = mysql_string_literal_lem (codes "it\\'s\n") (codes ")") refl

abbrev bytes : List ℕ
bytes = 0 ∷ 171 ∷ []

micros : push_subsecond (codes "10:00:00") 1_500_000 ≡ codes "10:00:00.001500"
unfolding push_subsecond dip_rust.Db.Sql.zero_padded dip_rust.Db.Sql.zeros
    dip_rust.Text.Decimal.to_decimal
micros = refl

abbrev service : Text → Backend → DbService
service name backend = record {
  service_name = name;
  container_id = name;
  backend = backend;
  config = record { db_name = codes "app"; password = codes "secret"; user = codes "root" };
}

abbrev services : List DbService
services =
    service (codes "pg") postgres ∷ service (codes "old") mysql ∷ service (codes "db") mysql ∷ []

chosen_pair :
    select_services (codes "db") (codes "pg") services
    ≡ chosen (service (codes "db") mysql) (service (codes "pg") postgres)
unfolding select_services dip_rust.Db.Services.position text_eq dip_rust.Db.Services.remove_both
    dip_rust.Db.Services.swap_remove
chosen_pair = refl

select_services_lem_example : select_services (codes "db") (codes "pg") services ≡ (
    if is_nil services then refused no_services else elim (find (is_named (codes "db")) services) [
      | none ↦
          refused
            (not_found (codes "db") services ++ codes "\n  Run `dip db list` to see all services.")
      | some f ↦ elim (find (is_named (codes "pg")) services) [
        | none ↦ refused (not_found (codes "pg") services)
        | some t ↦
            if text_eq (codes "db") (codes "pg")
            then refused (codes "--from and --to must be different services")
            else chosen f t
      ]
    ])
select_services_lem_example = select_services_lem (codes "db") (codes "pg") services

abbrev key : MysqlFk
key = record {
  name = codes "fk";
  column = codes "user\"id";
  ref_table = codes "users";
  ref_column = codes "id";
}

build_pg_fk_lem_example : read_fk (build_pg_fk (codes "orders") key) ≡ some (codes "orders", key)
build_pg_fk_lem_example = build_pg_fk_lem (codes "orders") key

abbrev statistics : List IndexRow
statistics =
    record { index_name = codes "ab"; column_name = codes "a"; non_unique = some 0 }
    ∷ record { index_name = codes "ab"; column_name = codes "b"; non_unique = some 0 }
    ∷ record { index_name = codes "c"; column_name = codes "c"; non_unique = none }
    ∷ []

find-mysql_get_indexes_example :
    find (has_name (codes "ab")) (mysql_get_indexes statistics)
    ≡ index_of_rows (filter (is_for (codes "ab")) statistics)
find-mysql_get_indexes_example = find-mysql_get_indexes statistics (codes "ab")

mysql_type_to_pg-Fits_example :
    (pg : Text) × (mysql_type_to_pg
        (λ s. s)
        (int_column (codes "n") integer (some (codes "10")) true false)
      ≡ some pg)
    × Fits integer true pg
mysql_type_to_pg-Fits_example =
    mysql_type_to_pg-Fits (λ s. s) (codes "n") integer (some (codes "10")) true false refl
      ((omega arith, omega arith), ((omega arith, omega arith), tt)) no_boolean no_smallint
  where
    no_boolean : ¬ IsBoolean integer (some (codes "10")) true
    no_boolean h = cc (h.0)

    no_smallint : ¬ ((integer ≡ smallint) × (true ≡ true))
    no_smallint h = cc (h.0)

-- An unsigned `smallint` up to 65535 goes to a type that ends at 32767.
unsigned_smallint :
    mysql_type_to_pg (λ s. s) (int_column (codes "n") smallint none true false)
    ≡ some (codes "SMALLINT")
unfolding mysql_type_to_pg text_eq dip_rust.Db.Schema.paren_part dip_rust.Db.Services.position
    dip_rust.Db.Schema.take_until trim_start_by before is_whitespace
unsigned_smallint = refl

-- A destination that keeps the batches.
abbrev keep : List ℕ → List (List ℕ) → Option (List (List ℕ))
keep batch kept = some (kept ++ batch ∷ [])

abbrev rows : List ℕ
rows = 1 ∷ 2 ∷ 3 ∷ []

stream_rows_lem_example :
    (batches : List (List ℕ)) × (concat batches ≡ map suc rows)
    × IsChunked batches
    × (stream_rows suc keep [] 0 (map some rows) [] ≡ insert_all suc keep batches 0 [])
stream_rows_lem_example = stream_rows_lem suc keep rows []

stream_rows-failed_example :
    (after : List (List ℕ)) × (stream_rows suc keep [] 0 (map some rows ++ (none ∷ [])) []
      ≡ failed after)
stream_rows-failed_example = stream_rows-failed suc keep rows [] []

abbrev settings : Env
settings = (codes "PGDATABASE", codes "shop") ∷ (codes "POSTGRES_PASSWORD", codes "pw") ∷ []

detected :
    detect settings
    ≡ some (
      postgres,
      record { db_name = codes "shop"; password = codes "pw"; user = codes "postgres" },
    )
unfolding detect lookup
detected = refl

abbrev container_entries : List Entry
container_entries =
    assigned b'P' (codes "GDATABASE") (codes "shop")
    ∷ no_string
    ∷ assigned b'P' (codes "GPASSWORD") (codes "pw")
    ∷ []

abbrev shop_config : DbConfig
shop_config = record { db_name = codes "shop"; password = codes "pw"; user = codes "postgres" }
