-- ===== src/Db/Transfer.antt =====
-- The transfer of a table's rows in batches, src/db/migrate.rs. The destination is a state that a
-- statement changes, or fails on; the source is the stream of its rows, `none` where it fails.
pub mod Chunks
pub mod Batches
use dip_rust.Base.{
  ℤ, pos, negsuc, any_of_Has, any_sound, le→ltb-false, is_nil, subst, some_inj, ltb→lt,
  ltb-false→le, leb→le, ℕ, zero, suc, ◌+◌, ◌-◌, ◌*◌, ◌/◌, ◌%◌, ◌^◌, ◌≤◌, ◌<◌, min, ◌≡◌, refl, sym,
  ap, ◌∙◌, ◌≢◌, ◌↔◌, ◌⊎◌, inl, inr, Bool, true, false, not, ◌&&◌, ◌||◌, Option, none, some, List,
  [], ◌∷◌, ◌++◌, map, append_assoc, append-nil, arith, ltb, leb, ◌==◌, if◌then◌else◌, ==_iff,
  Bool-cases, &&-true, Option-cases, ◌>>=◌, unwrap_or, or_else, is_some, length, get_elem?, take,
  drop, filter, any, find, Has, Has-append_left, Has-append_right, All, All-append, All-Has,
  All_of_Has, length-append, take-append-drop, take-length-append, drop-length-append, length-take,
  length-drop, get_elem?-lt,
}
use dip_rust.Db.Cells.{
  Drivers, CellValue, null, extract_mysql_cell, extract_pg_cell, cell_to_pg_literal,
  cell_to_mysql_literal,
}
use dip_rust.Db.Ddl.{ident_list}
use dip_rust.Db.Schema.{MysqlCol, PgCol}
use dip_rust.Db.Sql.{pg_ident, mysql_ident}
use dip_rust.Text.{
  Text, codes, char_len, byte_len, text_eq, is_empty, strip_prefix, starts_with, ends_with,
  contains_char, contains, is_whitespace, trim_start_by, keep_unless, trim_end_by, trim_start,
  trim_end, trim, trim_char, split_once, cons_to_first, split, before, join, drop_cr, lines_from,
  lines, replace_char, ascii_lower, to_ascii_lowercase, eq_ignore_ascii_case,
}

abbrev pub chunk_size : ℕ
chunk_size = 500

-- How a transfer ends: with the number of rows, or with an error; and the destination's state.
pub data Ended (S : Type 0) : Type 0 where
  finished : ℕ → S → Ended S
  failed : S → Ended S

module _ {Row : Type 0} {Cells : Type 0} {S : Type 0} (cells : Row → Cells)
    (insert : List Cells → S → Option S) where
  -- The loop over the stream, with the batch and the total so far, and what follows it.
  unfoldable pub stream_rows : List Cells → ℕ → List (Option Row) → S → Ended S
  stream_rows [] total [] s = finished total s
  stream_rows (x ∷ batch) total [] s = elim (insert (x ∷ batch) s) [
    | none ↦ failed s
    | some after ↦ finished (total + length (x ∷ batch)) after
  ]
  stream_rows batch total (none ∷ rows) s = failed s
  stream_rows batch total (some row ∷ rows) s =
      let batch = batch ++ cells row ∷ [] in
      elim (leb chunk_size (length batch)) [
        | true ↦ elim (insert batch s) [
          | none ↦ failed s
          | some after ↦ stream_rows [] (total + length batch) rows after
        ]
        | false ↦ stream_rows batch total rows s
      ]

-- `INSERT INTO table (columns) VALUES (…), (…)`.
unfoldable pub insert_sql {ℓ} : {A : Type ℓ} → (A → Text) → Text → Text → List (List A) → Text
insert_sql literal table col_list batch =
    codes "INSERT INTO "
    ++ (table
        ++ (codes " ("
            ++ (col_list
                ++ (codes ") VALUES "
                    ++ join (codes ", ") (
                        map (λ row. b'(' ∷ (join (codes ", ") (map literal row) ++ (b')' ∷ [])))
                          batch)))))

-- The cells of a row, one for each column, by its place; what cannot be read is null.
unfoldable pub cells_from {ℓ κ} :
    {A : Type ℓ} {C : Type κ} → C → (ℕ → A → Option C) → ℕ → List A → List C
cells_from empty extract i [] = []
cells_from empty extract i (col ∷ cols) =
    unwrap_or (extract i col) empty ∷ cells_from empty extract (suc i) cols

module _ (D : Drivers) {S : Type 0} (execute : Text → S → Option S) where
  open D use {Row}

  -- A batch that is empty is not sent.
  unfoldable pub insert_pg_batch : Text → Text → List (List (CellValue D)) → S → Option S
  unfolding insert_sql
  insert_pg_batch table col_list [] s = some s
  insert_pg_batch table col_list (row ∷ batch) s =
      execute (insert_sql (cell_to_pg_literal D) (pg_ident table) col_list (row ∷ batch)) s

  unfoldable pub insert_mysql_batch : Text → Text → List (List (CellValue D)) → S → Option S
  unfolding insert_sql
  insert_mysql_batch table col_list [] s = some s
  insert_mysql_batch table col_list (row ∷ batch) s =
      execute (insert_sql (cell_to_mysql_literal D) (mysql_ident table) col_list (row ∷ batch)) s

  -- A statement whose failure is ignored.
  abbrev pub try_execute : Text → S → S
  try_execute sql s = unwrap_or (execute sql s) s

  unfoldable pub transfer_mysql_to_pg :
      (Text → Text) → Text → List MysqlCol → List (Option Row) → S → Ended S
  unfolding stream_rows cells_from insert_pg_batch ident_list
  transfer_mysql_to_pg to_lowercase table cols rows s =
      stream_rows
        (λ (row : Row).
          cells_from null (λ i col. extract_mysql_cell D to_lowercase row i col) 0 cols)
        (insert_pg_batch table (ident_list pg_ident (map (λ (c : MysqlCol). c.name) cols))) [] 0
        rows
        (try_execute
          (codes "TRUNCATE TABLE " ++ (pg_ident table ++ codes " RESTART IDENTITY CASCADE")) s)

  unfoldable pub transfer_pg_to_mysql : Text → List PgCol → List (Option Row) → S → Ended S
  unfolding stream_rows cells_from insert_mysql_batch ident_list
  transfer_pg_to_mysql table cols rows s =
      stream_rows (λ (row : Row). cells_from null (λ i col. extract_pg_cell D row i col) 0 cols)
        (insert_mysql_batch table (ident_list mysql_ident (map (λ (c : PgCol). c.name) cols))) [] 0
        rows
        (try_execute (codes "SET FOREIGN_KEY_CHECKS=1") (
          try_execute (codes "TRUNCATE TABLE " ++ mysql_ident table)
            (try_execute (codes "SET FOREIGN_KEY_CHECKS=0") s)))
