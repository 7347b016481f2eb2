-- ===== src/Db/Ddl.antt =====
-- The statements that create tables, indexes and foreign keys, src/db/migrate.rs.
pub mod Statements
use dip_rust.Base.{
  ℤ, pos, negsuc, any_of_Has, any_sound, le→ltb-false, is_nil, subst, some_inj, ltb→lt,
  ltb-false→le, leb→le, ℕ, zero, suc, ◌+◌, ◌-◌, ◌*◌, ◌/◌, ◌%◌, ◌^◌, ◌≤◌, ◌<◌, min, ◌≡◌, refl, sym,
  ap, ◌∙◌, ◌≢◌, ◌↔◌, ◌⊎◌, inl, inr, Bool, true, false, not, ◌&&◌, ◌||◌, Option, none, some, List,
  [], ◌∷◌, ◌++◌, map, append_assoc, append-nil, arith, ltb, leb, ◌==◌, if◌then◌else◌, ==_iff,
  Bool-cases, &&-true, Option-cases, ◌>>=◌, unwrap_or, or_else, is_some, length, get_elem?, take,
  drop, filter, any, find, Has, Has-append_left, Has-append_right, All, All-append, All-Has,
  All_of_Has, length-append, take-append-drop, take-length-append, drop-length-append, length-take,
  length-drop, get_elem?-lt,
}
use dip_rust.Db.Schema.{MysqlCol, MysqlIdx, MysqlFk, PgCol, mysql_type_to_pg, pg_type_to_mysql}
use dip_rust.Db.Sql.{pg_ident, mysql_ident, pg_string_literal}
use dip_rust.Text.{
  Text, codes, char_len, byte_len, text_eq, is_empty, strip_prefix, starts_with, ends_with,
  contains_char, contains, is_whitespace, trim_start_by, keep_unless, trim_end_by, trim_start,
  trim_end, trim, trim_char, split_once, cons_to_first, split, before, join, drop_cr, lines_from,
  lines, replace_char, ascii_lower, to_ascii_lowercase, eq_ignore_ascii_case,
}

-- Identifiers with commas between them.
unfoldable pub ident_list : (Text → Text) → List Text → Text
ident_list ident names = join (codes ", ") (map ident names)

-- A line for a column, and the line for the primary key if there is one.
unfoldable pub column_line : Text → Text → Bool → Text
column_line ident sql_type is_nullable =
    codes "  " ++ (ident ++ (b' ' ∷ (sql_type ++ (if is_nullable then [] else codes " NOT NULL"))))

unfoldable pub pk_lines : (Text → Text) → List Text → List Text
unfolding ident_list
pk_lines ident [] = []
pk_lines ident (c ∷ pk) = (codes "  PRIMARY KEY (" ++ (ident_list ident (c ∷ pk) ++ codes ")")) ∷ []

unfoldable pub create_table : Text → List Text → Text
create_table table table_lines =
    codes "CREATE TABLE IF NOT EXISTS "
    ++ (table ++ (codes " (\n" ++ (join (codes ",\n") table_lines ++ codes "\n)")))

module _ (to_lowercase : Text → Text) where
  unfoldable pub pg_lines : List MysqlCol → Option (List Text)
  pg_lines [] = some []
  pg_lines (col ∷ cols) = do
    sql_type ← mysql_type_to_pg to_lowercase col
    rest ← pg_lines cols
    some (column_line (pg_ident col.name) sql_type col.is_nullable ∷ rest)

  -- `none`: a column's type panics.
  unfoldable pub build_pg_create_table : Text → List MysqlCol → List Text → Option Text
  unfolding pg_lines create_table pk_lines
  build_pg_create_table table cols pk = do
    column_lines ← pg_lines cols
    some (create_table (pg_ident table) (column_lines ++ pk_lines pg_ident pk))

unfoldable pub build_mysql_create_table : Text → List PgCol → List Text → Text
unfolding create_table pk_lines
build_mysql_create_table table cols pk =
    create_table (mysql_ident table) (
      map
        (λ (col : PgCol). column_line (mysql_ident col.name) (pg_type_to_mysql col) col.is_nullable)
        cols
      ++ pk_lines mysql_ident pk)
    ++ codes " ENGINE=InnoDB DEFAULT CHARSET=utf8mb4"

unfoldable pub build_pg_index : Text → MysqlIdx → Text
build_pg_index table idx =
    codes "CREATE "
    ++ ((if idx.is_unique then codes "UNIQUE " else [])
        ++ (codes "INDEX IF NOT EXISTS "
            ++ (pg_ident idx.name
                ++ (codes " ON "
                    ++ (pg_ident table
                        ++ (codes " (" ++ (ident_list pg_ident idx.columns ++ codes ")")))))))

unfoldable pub build_pg_fk : Text → MysqlFk → Text
build_pg_fk table fk =
    codes "ALTER TABLE "
    ++ (pg_ident table
        ++ (codes " ADD CONSTRAINT "
            ++ (pg_ident fk.name
                ++ (codes " FOREIGN KEY ("
                    ++ (pg_ident fk.column
                        ++ (codes ") REFERENCES "
                            ++ (pg_ident fk.ref_table
                                ++ (codes " (" ++ (pg_ident fk.ref_column ++ codes ")")))))))))

-- The reset of the sequence of an auto-increment column.
unfoldable pub reset_sequence : Text → MysqlCol → Text
reset_sequence table col =
    codes "SELECT setval(pg_get_serial_sequence("
    ++ (pg_string_literal (pg_ident table)
        ++ (codes ", "
            ++ (pg_string_literal col.name
                ++ (codes "), COALESCE(MAX("
                    ++ (pg_ident col.name ++ (codes "), 1)) FROM " ++ pg_ident table))))))
