-- ===== src/Db/Migration/Order.antt =====
-- The order of the statements of a migration: the tables, the data, and then the indexes, the
-- sequences and the foreign keys.
use dip_rust.Base.{
  length-map, ℕ, ◌+◌, ◌<◌, ◌≡◌, refl, sym, ap, ◌∙◌, Option, none, some, List, [], ◌∷◌, ◌++◌, map,
  append_assoc, append-nil, arith, length, length-append,
}
use dip_rust.Db.Cells.{Drivers, CellValue, null, extract_mysql_cell, cell_to_pg_literal}
use dip_rust.Db.Ddl.{build_pg_create_table, ident_list}
use dip_rust.Db.Migration.{
  fk_statements, sequence_statements, index_statements, transfer_tables, MysqlTable,
  migrate_mysql_to_pg, execute_ignored, create_tables,
}
use dip_rust.Db.Schema.{MysqlCol}
use dip_rust.Db.Sql.{pg_ident}
use dip_rust.Db.Transfer.Batches.{insert_all, stream_rows_lem}
use dip_rust.Db.Transfer.Chunks.{concat, IsChunked}
use dip_rust.Db.Transfer.{
  Ended, finished, failed, stream_rows, cells_from, insert_sql, insert_pg_batch,
  transfer_mysql_to_pg,
}
use dip_rust.Text.{Text, codes, join}

-- A destination that takes every statement and keeps it.
abbrev pub log : Text → List Text → Option (List Text)
log sql statements = some (statements ++ sql ∷ [])

execute_ignored-log :
    (statements before : List Text) → execute_ignored log statements before ≡ before ++ statements
unfolding execute_ignored
execute_ignored-log [] before = sym (append-nil before)
execute_ignored-log (sql ∷ statements) before =
    execute_ignored-log statements (before ++ sql ∷ []) ∙ append_assoc before (sql ∷ []) statements

create_tables-log :
    (statements before : List Text)
    → create_tables log (map some statements) before ≡ finished 0 (before ++ statements)
unfolding create_tables
create_tables-log [] before = ap (finished 0) (sym (append-nil before))
create_tables-log (sql ∷ statements) before =
    create_tables-log statements (before ++ sql ∷ [])
    ∙ ap (finished 0) (append_assoc before (sql ∷ []) statements)

regroup : (a b c d e : List Text) → (((a ++ b) ++ c) ++ d) ++ e ≡ a ++ (b ++ (c ++ (d ++ e)))
regroup a b c d e =
    append_assoc ((a ++ b) ++ c) d e
    ∙ append_assoc (a ++ b) c (d ++ e)
    ∙ append_assoc a b (c ++ (d ++ e))

IsChunked-tail :
    {A : Type 0} (b : List A) (batches : List (List A))
    → IsChunked (b ∷ batches)
    → IsChunked batches
IsChunked-tail b [] h = tt
IsChunked-tail b (c ∷ batches) h = h.1

length-IsChunked :
    {A : Type 0} (b : List A) (batches : List (List A)) → IsChunked (b ∷ batches) → 0 < length b
length-IsChunked b [] h = h.0
length-IsChunked b (c ∷ batches) h = omega (arith, h.0)

-- Inserts that execute one statement for a batch.
module _ {Row C : Type 0} (cells : Row → C) (insert : List C → List Text → Option (List Text))
    (sql : List C → Text)
    (adds : (c : C) (b : List C) (before : List Text)
      → insert (c ∷ b) before ≡ some (before ++ sql (c ∷ b) ∷ [])) where
  insert_all-log :
      (batches : List (List C)) (total : ℕ) (before : List Text)
      → IsChunked batches
      → insert_all cells insert batches total before
        ≡ finished (total + length (concat batches)) (before ++ map sql batches)
  unfolding insert_all
  insert_all-log [] total before h =
      rw (append-nil before) (ap (λ n. finished n before) (omega arith))
  insert_all-log ([] ∷ batches) total before h =
      absurd (omega (arith, length-IsChunked [] batches h))
  insert_all-log ((c ∷ b) ∷ batches) total before h =
      ap
        (λ o. elim o as (λ _. Ended (List Text)) [
          | none ↦ failed before
          | some after ↦ insert_all cells insert batches (total + length (c ∷ b)) after
        ])
        (adds c b before)
      ∙ (insert_all-log batches (total + length (c ∷ b)) (before ++ sql (c ∷ b) ∷ [])
            (IsChunked-tail (c ∷ b) batches h)
          ∙ rw (append_assoc before (sql (c ∷ b) ∷ []) (map sql batches)) (
              ap (λ n. finished n (before ++ map sql ((c ∷ b) ∷ batches)))
                (omega (arith, length-append (c ∷ b) (concat batches)))))

  stream_rows-log :
      (rows : List Row) (before : List Text)
      → (batches : List (List C)) × (concat batches ≡ map cells rows)
        × IsChunked batches
        × (stream_rows cells insert [] 0 (map some rows) before
            ≡ finished (length rows) (before ++ map sql batches))
  stream_rows-log rows before =
      let (batches, c, chunked, e) = stream_rows_lem cells insert rows before in
      (
        batches,
        c,
        chunked,
        e
            ∙ insert_all-log batches 0 before chunked
            ∙ ap (λ n. finished n (before ++ map sql batches))
                (omega (arith, ap length c, length-map cells rows)),
      )

module _ (D : Drivers) where
  open D use {Row}

  -- The statement that clears a table, and the one that inserts a batch of rows.
  abbrev pub truncate_text : MysqlTable → Text
  truncate_text t =
      codes "TRUNCATE TABLE " ++ (pg_ident t.name ++ codes " RESTART IDENTITY CASCADE")

  abbrev pub tuple_text : List (CellValue D) → Text
  tuple_text row = b'(' ∷ (join (codes ", ") (map (cell_to_pg_literal D) row) ++ (b')' ∷ []))

  abbrev pub insert_text : MysqlTable → List (List (CellValue D)) → Text
  insert_text t batch =
      codes "INSERT INTO "
      ++ (pg_ident t.name
          ++ (codes " ("
              ++ (join (codes ", ") (map (λ (c : MysqlCol). pg_ident c.name) t.cols)
                  ++ (codes ") VALUES " ++ join (codes ", ") (map tuple_text batch)))))

  -- The cells of a row, one for each column of its table.
  abbrev pub cells_of : (Text → Text) → MysqlTable → Row → List (CellValue D)
  cells_of to_lowercase t row =
      cells_from null (λ i col. extract_mysql_cell D to_lowercase row i col) 0 t.cols

  -- The statements that fill some tables: for each it is cleared, and then its rows are inserted,
  -- each row once and in their order, in batches of 500 but for the last.
  abbrev pub Fills : (Text → Text) → (MysqlTable → List Row) → List MysqlTable → List Text → Type 0
  Fills to_lowercase rows [] part = part ≡ []
  Fills to_lowercase rows (t ∷ tables) part =
      (batches : List (List (List (CellValue D)))) × (later : List Text) × (concat batches
        ≡ map (cells_of to_lowercase t) (rows t))
      × IsChunked batches
      × (part ≡ truncate_text t ∷ (map (insert_text t) batches ++ later))
      × Fills to_lowercase rows tables later

  col_list-join :
      (cols : List MysqlCol)
      → ident_list pg_ident (map (λ (c : MysqlCol). c.name) cols)
        ≡ join (codes ", ") (map (λ (c : MysqlCol). pg_ident c.name) cols)
  unfolding ident_list
  col_list-join cols = ap (join (codes ", ")) (quoted cols)
    where
      quoted :
          (cs : List MysqlCol)
          → map pg_ident (map (λ (c : MysqlCol). c.name) cs)
            ≡ map (λ (c : MysqlCol). pg_ident c.name) cs
      quoted [] = refl
      quoted (c ∷ cs) = ap (◌∷◌ (pg_ident c.name)) (quoted cs)

  insert_pg_batch-log :
      (t : MysqlTable) (c : List (CellValue D)) (b : List (List (CellValue D))) (before : List Text)
      → insert_pg_batch D log t.name
          (ident_list pg_ident (map (λ (c : MysqlCol). c.name) t.cols))
          (c ∷ b)
          before
        ≡ some (before ++ insert_text t (c ∷ b) ∷ [])
  unfolding insert_pg_batch insert_sql
  insert_pg_batch-log t c b before = rw (col_list-join t.cols) refl

  transfer_mysql_to_pg-log :
      (to_lowercase : Text → Text) (t : MysqlTable) (rows : List Row) (before : List Text)
      → (batches : List (List (List (CellValue D)))) × (concat batches
          ≡ map (cells_of to_lowercase t) rows)
        × IsChunked batches
        × (transfer_mysql_to_pg D log to_lowercase t.name t.cols (map some rows) before
            ≡ finished (length rows) (before ++ truncate_text t ∷ map (insert_text t) batches))
  unfolding transfer_mysql_to_pg
  transfer_mysql_to_pg-log to_lowercase t rows before =
      let (batches, c, chunked, e) =
        stream_rows-log (cells_of to_lowercase t)
          (insert_pg_batch D log t.name
            (ident_list pg_ident (map (λ (c : MysqlCol). c.name) t.cols)))
          (insert_text t) (insert_pg_batch-log t) rows (before ++ truncate_text t ∷ []) in
      (
        batches,
        c,
        chunked,
        e
            ∙ ap (finished (length rows))
                (append_assoc before (truncate_text t ∷ []) (map (insert_text t) batches)),
      )

  -- The rows of some tables.
  abbrev pub row_count : (MysqlTable → List Row) → List MysqlTable → ℕ
  row_count rows [] = 0
  row_count rows (t ∷ tables) = length (rows t) + row_count rows tables

  transfer_tables-log :
      (to_lowercase : Text → Text) (rows : MysqlTable → List Row) (total : ℕ)
      (tables : List MysqlTable) (before : List Text)
      → (part : List Text) × (transfer_tables log
            (λ (t : MysqlTable).
              transfer_mysql_to_pg D log to_lowercase t.name t.cols (map some (rows t)))
            total
            tables
            before
          ≡ finished (total + row_count rows tables) (before ++ part))
        × Fills to_lowercase rows tables part
  unfolding transfer_tables
  transfer_tables-log to_lowercase rows total [] before =
      ([], rw (append-nil before) (ap (λ n. finished n before) (omega arith)), refl)
  transfer_tables-log to_lowercase rows total (t ∷ tables) before =
      let (batches, c, chunked, e) = transfer_mysql_to_pg-log to_lowercase t (rows t) before in
      let own = truncate_text t ∷ map (insert_text t) batches in
      let (later, k, fills) =
        transfer_tables-log to_lowercase rows (total + length (rows t)) tables (before ++ own) in
      (
        own ++ later,
        ap
              (λ o. elim o as (λ _. Ended (List Text)) [
                | failed after ↦ failed after
                | finished count after ↦
                    transfer_tables log
                      (λ (t : MysqlTable).
                        transfer_mysql_to_pg D log to_lowercase t.name t.cols (map some (rows t)))
                      (total + count) tables after
              ])
              e
            ∙ k
            ∙ rw (append_assoc before own later)
                (ap (λ n. finished n (before ++ (own ++ later))) (omega arith)),
        (batches, later, c, chunked, refl, fills),
      )

  -- A migration to PostgreSQL, where no type of a column panics, the source's streams do not fail
  -- and the destination takes every statement, ends with the number of all rows. It creates all the
  -- tables first; then, table by table, it clears the table and inserts all its rows once, in their
  -- order, in batches of 500 but for the last; and only then makes the indexes, resets the sequences
  -- and adds the foreign keys.
  pub migrate_mysql_to_pg_lem :
      (to_lowercase : Text → Text) (rows : MysqlTable → List Row) (tables : List MysqlTable)
      (creates : List Text)
      → map (λ (t : MysqlTable). build_pg_create_table to_lowercase t.name t.cols t.pk) tables
        ≡ map some creates
      → (part : List Text) × (migrate_mysql_to_pg D log to_lowercase
            (λ t. map some (rows t))
            tables
            []
          ≡ finished (row_count rows tables) (
              creates
              ++ (part
                  ++ (index_statements tables
                      ++ (sequence_statements tables ++ fk_statements tables)))))
        × Fills to_lowercase rows tables part
  unfolding migrate_mysql_to_pg
  migrate_mysql_to_pg_lem to_lowercase rows tables creates h =
      let (part, e, fills) = transfer_tables-log to_lowercase rows 0 tables creates in
      (
        part,
        rw (h, create_tables-log creates [], e)
            (rw
              (
                execute_ignored-log (index_statements tables) (creates ++ part),
                execute_ignored-log (sequence_statements tables)
                    ((creates ++ part) ++ index_statements tables),
                execute_ignored-log (fk_statements tables)
                    (((creates ++ part) ++ index_statements tables) ++ sequence_statements tables),
                regroup creates part (index_statements tables) (sequence_statements tables)
                    (fk_statements tables),
              )
              (ap
                (λ n. finished n (
                  creates
                  ++ (part
                      ++ (index_statements tables
                          ++ (sequence_statements tables ++ fk_statements tables)))))
                (omega arith))),
        fills,
      )
