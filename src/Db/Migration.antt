-- ===== src/Db/Migration.antt =====
-- The migrations as a whole, `migrate_mysql_to_pg` and `migrate_pg_to_mysql` of
-- src/db/migrate.rs: what they execute in the destination, in which order, and where they stop.
pub mod Order
mod Tests
use dip_rust.Base.{
  ℤ, pos, negsuc, any_of_Has, any_sound, le→ltb-false, is_nil, subst, some_inj, ltb→lt,
  ltb-false→le, leb→le, ℕ, zero, suc, ◌+◌, ◌-◌, ◌*◌, ◌/◌, ◌%◌, ◌^◌, ◌≤◌, ◌<◌, min, ◌≡◌, refl, sym,
  ap, ◌∙◌, ◌≢◌, ◌↔◌, ◌⊎◌, inl, inr, Bool, true, false, not, ◌&&◌, ◌||◌, Option, none, some, List,
  [], ◌∷◌, ◌++◌, map, append_assoc, append-nil, arith, ltb, leb, ◌==◌, if◌then◌else◌, ==_iff,
  Bool-cases, &&-true, Option-cases, ◌>>=◌, unwrap_or, or_else, is_some, length, get_elem?, take,
  drop, filter, any, find, Has, Has-append_left, Has-append_right, All, All-append, All-Has,
  All_of_Has, length-append, take-append-drop, take-length-append, drop-length-append, length-take,
  length-drop, get_elem?-lt,
}
use dip_rust.Db.Cells.{Drivers}
use dip_rust.Db.Ddl.{
  build_pg_create_table, build_mysql_create_table, build_pg_index, build_pg_fk, reset_sequence,
}
use dip_rust.Db.Schema.{MysqlCol, MysqlIdx, MysqlFk, PgCol}
use dip_rust.Db.Transfer.{Ended, finished, failed, transfer_mysql_to_pg, transfer_pg_to_mysql}
use dip_rust.Text.{
  Text, codes, char_len, byte_len, text_eq, is_empty, strip_prefix, starts_with, ends_with,
  contains_char, contains, is_whitespace, trim_start_by, keep_unless, trim_end_by, trim_start,
  trim_end, trim, trim_char, split_once, cons_to_first, split, before, join, drop_cr, lines_from,
  lines, replace_char, ascii_lower, to_ascii_lowercase, eq_ignore_ascii_case,
}

-- What was read of a table.
pub record MysqlTable : Type 0 where
  pub name : Text
  pub cols : List MysqlCol
  pub pk : List Text
  pub idxs : List MysqlIdx
  pub fks : List MysqlFk

pub record PgTable : Type 0 where
  pub name : Text
  pub cols : List PgCol
  pub pk : List Text

module _ {S : Type 0} (execute : Text → S → Option S) where
  -- Statements whose failures are ignored.
  unfoldable pub execute_ignored : List Text → S → S
  execute_ignored [] s = s
  execute_ignored (sql ∷ statements) s = execute_ignored statements (unwrap_or (execute sql s) s)

  -- The creation of the tables stops at the first failure; a statement that is `none` panics, which
  -- ends the migration too.
  unfoldable pub create_tables : List (Option Text) → S → Ended S
  create_tables [] s = finished 0 s
  create_tables (none ∷ statements) s = failed s
  create_tables (some sql ∷ statements) s = elim (execute sql s) [
    | none ↦ failed s
    | some after ↦ create_tables statements after
  ]

  -- The transfers of the tables, with the rows so far.
  unfoldable pub transfer_tables : {T : Type 0} → (T → S → Ended S) → ℕ → List T → S → Ended S
  transfer_tables transfer total [] s = finished total s
  transfer_tables transfer total (t ∷ tables) s = elim (transfer t s) [
    | failed after ↦ failed after
    | finished count after ↦ transfer_tables transfer (total + count) tables after
  ]

-- What a migration goes on with, unless it has failed.
abbrev pub and_then : {S : Type 0} → Ended S → (ℕ → S → Ended S) → Ended S
and_then (finished n s) next = next n s
and_then (failed s) next = failed s

abbrev pub flat_map {ℓ κ} : {A : Type ℓ} {B : Type κ} → (A → List B) → List A → List B
flat_map f [] = []
flat_map f (x ∷ xs) = f x ++ flat_map f xs

-- The statements behind the data: the indexes, the sequences, the foreign keys.
unfoldable pub index_statements : List MysqlTable → List Text
index_statements tables = flat_map (λ (t : MysqlTable). map (build_pg_index t.name) t.idxs) tables

unfoldable pub sequence_statements : List MysqlTable → List Text
sequence_statements tables =
    flat_map
      (λ (t : MysqlTable).
        map (reset_sequence t.name) (filter (λ (c : MysqlCol). c.is_auto_increment) t.cols))
      tables

unfoldable pub fk_statements : List MysqlTable → List Text
fk_statements tables = flat_map (λ (t : MysqlTable). map (build_pg_fk t.name) t.fks) tables

module _ (D : Drivers) {S : Type 0} (execute : Text → S → Option S) where
  open D use {Row}

  -- `rows` are the streams of the source's tables. Without tables nothing is done.
  unfoldable pub migrate_mysql_to_pg :
      (to_lowercase : Text → Text)
      → (MysqlTable → List (Option Row))
      → List MysqlTable
      → S
      → Ended S
  migrate_mysql_to_pg to_lowercase rows tables s =
      and_then
        (create_tables execute
          (map (λ (t : MysqlTable). build_pg_create_table to_lowercase t.name t.cols t.pk) tables)
          s)
        λ _ created.
          and_then
            (transfer_tables execute
              (λ (t : MysqlTable).
                transfer_mysql_to_pg D execute to_lowercase t.name t.cols (rows t))
              0 tables created)
            λ total filled.
              let indexed = execute_ignored execute (index_statements tables) filled in
              let counted = execute_ignored execute (sequence_statements tables) indexed in
              finished total (execute_ignored execute (fk_statements tables) counted)

  unfoldable pub migrate_pg_to_mysql : (PgTable → List (Option Row)) → List PgTable → S → Ended S
  migrate_pg_to_mysql rows tables s =
      and_then
        (create_tables execute
          (map (λ (t : PgTable). some (build_mysql_create_table t.name t.cols t.pk)) tables) s)
        λ _ created.
          transfer_tables execute
            (λ (t : PgTable). transfer_pg_to_mysql D execute t.name t.cols (rows t)) 0 tables
            created
