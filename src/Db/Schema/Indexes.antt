-- ===== src/Db/Schema/Indexes.antt =====
-- The indexes that the rows of the statistics make.
use dip_rust.Base.{
  ◌≡◌, refl, sym, ap, ◌∙◌, inl, inr, Bool, true, false, Option, none, some, List, [], ◌∷◌, ◌++◌,
  map, append_assoc, append-nil, ◌==◌, if◌then◌else◌, Bool-cases, unwrap_or, filter, find,
}
use dip_rust.Db.Schema.{MysqlIdx, IndexRow, add_index_row, indexes_onto, mysql_get_indexes}
use dip_rust.Text.Equality.{text_eq_iff}
use dip_rust.Text.{Text, text_eq}

abbrev pub has_name : Text → MysqlIdx → Bool
has_name n idx = text_eq idx.name n

abbrev pub is_for : Text → IndexRow → Bool
is_for n row = text_eq row.index_name n

-- The index of one row, and an index with a further column.
abbrev pub new_index : IndexRow → MysqlIdx
new_index row = record {
  name = row.index_name;
  columns = row.column_name ∷ [];
  is_unique = unwrap_or row.non_unique 1 == 0;
}

abbrev pub with_columns : MysqlIdx → List Text → MysqlIdx
with_columns idx columns = record idx { columns = idx.columns ++ columns }

-- The index with a name after a row for it.
abbrev pub after_row : IndexRow → Option MysqlIdx → Option MysqlIdx
after_row row none = some (new_index row)
after_row row (some idx) = some (with_columns idx (row.column_name ∷ []))

not_for :
    (idx : MysqlIdx) (row : IndexRow) (n : Text)
    → text_eq idx.name row.index_name ≡ false
    → has_name n idx ≡ true
    → is_for n row ≡ false
not_for idx row n other t = elim (Bool-cases (is_for n row)) [
  | inr f ↦ f
  | inl k ↦ cc (
    other,
    (text_eq_iff idx.name row.index_name).1
        ((text_eq_iff idx.name n).0 t ∙ sym ((text_eq_iff row.index_name n).0 k)),
  )
]

find-add_index_row :
    (row : IndexRow) (indexes : List MysqlIdx) (n : Text)
    → find (has_name n) (add_index_row row indexes) ≡ (
        if is_for n row
        then after_row row (find (has_name n) indexes)
        else find (has_name n) indexes)
unfolding add_index_row
find-add_index_row row [] n = elim (Bool-cases (is_for n row)) [ inl t ↦ rw t | inr f ↦ rw f ]
find-add_index_row row (idx ∷ indexes) n = elim (Bool-cases (text_eq idx.name row.index_name)) [
  | inl same ↦
      rw (same, (text_eq_iff idx.name row.index_name).0 same)
        (elim (Bool-cases (is_for n row)) [ inl t ↦ rw t | inr f ↦ rw f ])
  | inr other ↦
      rw (other, find-add_index_row row indexes n)
        (elim (Bool-cases (has_name n idx)) [
          | inr f ↦ rw f
          | inl t ↦ rw (t, not_for idx row n other t)
        ])
]

-- The index with a name after rows for it.
unfoldable rows_onto : Option MysqlIdx → List IndexRow → Option MysqlIdx
rows_onto o [] = o
rows_onto o (row ∷ rows) = rows_onto (after_row row o) rows

find-indexes_onto :
    (rows : List IndexRow) (indexes : List MysqlIdx) (n : Text)
    → find (has_name n) (indexes_onto indexes rows)
      ≡ rows_onto (find (has_name n) indexes) (filter (is_for n) rows)
unfolding indexes_onto rows_onto
find-indexes_onto [] indexes n = refl
find-indexes_onto (row ∷ rows) indexes n =
    find-indexes_onto rows (add_index_row row indexes) n
    ∙ ap (λ o. rows_onto o (filter (is_for n) rows)) (find-add_index_row row indexes n)
    ∙ elim (Bool-cases (is_for n row)) [ inl t ↦ rw t | inr f ↦ rw f ]

rows_onto-some :
    (idx : MysqlIdx) (rows : List IndexRow)
    → rows_onto (some idx) rows
      ≡ some (with_columns idx (map (λ (row : IndexRow). row.column_name) rows))
unfolding rows_onto
rows_onto-some idx [] = ap (λ c. some (record idx { columns = c })) (sym (append-nil idx.columns))
rows_onto-some idx (row ∷ rows) =
    rows_onto-some (with_columns idx (row.column_name ∷ [])) rows
    ∙ ap (λ c. some (record idx { columns = c }))
        (append_assoc idx.columns (row.column_name ∷ [])
          (map (λ (row : IndexRow). row.column_name) rows))

-- The index of the rows for one name: the columns in the order of the rows, unique if the first
-- row says so; none if there are no rows.
abbrev pub index_of_rows : List IndexRow → Option MysqlIdx
index_of_rows [] = none
index_of_rows (row ∷ rows) = some record {
  name = row.index_name;
  columns = map (λ (r : IndexRow). r.column_name) (row ∷ rows);
  is_unique = unwrap_or row.non_unique 1 == 0;
}

rows_onto-none : (rows : List IndexRow) → rows_onto none rows ≡ index_of_rows rows
unfolding rows_onto
rows_onto-none [] = refl
rows_onto-none (row ∷ rows) = rows_onto-some (new_index row) rows

-- The index with a name has the columns of the rows for that name in their order, and is unique if
-- the first of them says so; without such rows there is none.
pub find-mysql_get_indexes :
    (rows : List IndexRow) (n : Text)
    → find (has_name n) (mysql_get_indexes rows) ≡ index_of_rows (filter (is_for n) rows)
unfolding mysql_get_indexes
find-mysql_get_indexes rows n =
    find-indexes_onto rows [] n ∙ rows_onto-none (filter (is_for n) rows)
