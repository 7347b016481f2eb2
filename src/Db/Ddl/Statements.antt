-- ===== src/Db/Ddl/Statements.antt =====
-- What a database reads in the statements for indexes and foreign keys.
use dip_rust.Base.{
  ℕ, ◌≡◌, refl, ap, ◌∙◌, false, Option, none, some, ◌∷◌, ◌++◌, ◌==◌, if◌then◌else◌, ◌>>=◌,
}
use dip_rust.Db.Ddl.{build_pg_fk}
use dip_rust.Db.Schema.{MysqlFk}
use dip_rust.Db.Sql.Quoting.{read_quoted, pg_ident_lem}
use dip_rust.Db.Sql.{pg_ident}
use dip_rust.Text.Affix.{strip_prefix-append}
use dip_rust.Text.{Text, codes, text_eq, strip_prefix, starts_with}

-- A keyword, and a quoted name behind which the statement goes on.
unfoldable pub read_name : Text → Text → Option (Text × Text)
read_name keyword s = strip_prefix keyword s >>= read_quoted b'"'

read_name_lem :
    (keyword name : Text) (c : ℕ) (rest : Text)
    → (b'"' == c) ≡ false
    → read_name keyword (keyword ++ (pg_ident name ++ (c ∷ rest))) ≡ some (name, c ∷ rest)
unfolding read_name starts_with
read_name_lem keyword name c rest h =
    ap (λ o. o >>= read_quoted b'"') (strip_prefix-append keyword (pg_ident name ++ (c ∷ rest)))
    ∙ pg_ident_lem name (c ∷ rest) (rw h)

-- The reader of a statement that adds a foreign key: its table and the key.
unfoldable pub read_fk : Text → Option (Text × MysqlFk)
read_fk s = do
  (table, a) ← read_name (codes "ALTER TABLE ") s
  (name, b) ← read_name (codes " ADD CONSTRAINT ") a
  (column, c) ← read_name (codes " FOREIGN KEY (") b
  (ref_table, d) ← read_name (codes ") REFERENCES ") c
  (ref_column, e) ← read_name (codes " (") d
  if text_eq e (codes ")")
      then some (
        table,
        record { name = name; column = column; ref_table = ref_table; ref_column = ref_column },
      )
      else none

-- The statement that adds a foreign key is read back as the key of the table, whatever the names.
pub build_pg_fk_lem :
    (table : Text) (fk : MysqlFk) → read_fk (build_pg_fk table fk) ≡ some (table, fk)
unfolding read_fk build_pg_fk
build_pg_fk_lem table fk =
    rw
      (
        read_name_lem (codes "ALTER TABLE ") table _ _ refl,
        read_name_lem (codes " ADD CONSTRAINT ") fk.name _ _ refl,
        read_name_lem (codes " FOREIGN KEY (") fk.column _ _ refl,
        read_name_lem (codes ") REFERENCES ") fk.ref_table _ _ refl,
        read_name_lem (codes " (") fk.ref_column _ _ refl,
      )
      (unfold text_eq in refl)
