-- ===== src/Db/Transfer/Batches.antt =====
-- What reaches the destination of a transfer.
use dip_rust.Base.{
  length-map, ℕ, ◌+◌, ◌≡◌, refl, sym, ap, ◌∙◌, inl, inr, true, false, Option, none, some, List, [],
  ◌∷◌, ◌++◌, map, arith, leb, Bool-cases, Option-cases, length, length-append,
}
use dip_rust.Db.Transfer.Chunks.{
  concat, IsChunked, chunks_from, chunks_full, chunks_more, concat-chunks_from,
  chunks_from-IsChunked,
}
use dip_rust.Db.Transfer.{chunk_size, Ended, finished, failed, stream_rows}

module _ {Row : Type 0} {Cells : Type 0} {S : Type 0} (cells : Row → Cells)
    (insert : List Cells → S → Option S) where
  -- Batches that are inserted one after the other, up to the first that fails.
  unfoldable pub insert_all : List (List Cells) → ℕ → S → Ended S
  insert_all [] total s = finished total s
  insert_all (b ∷ batches) total s = elim (insert b s) [
    | none ↦ failed s
    | some after ↦ insert_all batches (total + length b) after
  ]

  -- What follows an insert.
  abbrev pub insert_then : List Cells → S → (S → Ended S) → Ended S
  insert_then b s next = elim (insert b s) [ none ↦ failed s | some after ↦ next after ]

  insert_then_same :
      (b : List Cells) (s : S) (next other : S → Ended S)
      → ((after : S) → next after ≡ other after)
      → insert_then b s next ≡ insert_then b s other
  insert_then_same b s next other h =
      elim (insert b s)
        as (λ o.
          elim o as (λ _. Ended S) [ none ↦ failed s | some after ↦ next after ]
          ≡ elim o as (λ _. Ended S) [ none ↦ failed s | some after ↦ other after ]) [
            | none ↦ refl
            | some after ↦ h after
          ]

  insert_then-some :
      (b : List Cells) (s : S) (next : S → Ended S) (after : S)
      → insert b s ≡ some after
      → insert_then b s next ≡ next after
  insert_then-some b s next after h =
      ap (λ o. elim o as (λ _. Ended S) [ none ↦ failed s | some a ↦ next a ]) h

  insert_then-none :
      (b : List Cells) (s : S) (next : S → Ended S)
      → insert b s ≡ none
      → insert_then b s next ≡ failed s
  insert_then-none b s next h =
      ap (λ o. elim o as (λ _. Ended S) [ none ↦ failed s | some a ↦ next a ]) h

  stream_rows_full :
      (batch : List Cells) (total : ℕ) (row : Row) (rows : List (Option Row)) (s : S)
      → leb chunk_size (length (batch ++ cells row ∷ [])) ≡ true
      → stream_rows cells insert batch total (some row ∷ rows) s
        ≡ insert_then
            (batch ++ cells row ∷ [])
            s
            (stream_rows cells insert [] (total + length (batch ++ cells row ∷ [])) rows)
  unfolding stream_rows
  stream_rows_full [] total row rows s h = cc
  stream_rows_full (b ∷ batch) total row rows s h =
      ap
        (λ t. elim t as (λ _. Ended S) [
          | true ↦
              insert_then (b ∷ (batch ++ cells row ∷ [])) s
                (stream_rows cells insert [] (total + length (b ∷ (batch ++ cells row ∷ []))) rows)
          | false ↦ stream_rows cells insert (b ∷ (batch ++ cells row ∷ [])) total rows s
        ])
        h

  stream_rows_more :
      (batch : List Cells) (total : ℕ) (row : Row) (rows : List (Option Row)) (s : S)
      → leb chunk_size (length (batch ++ cells row ∷ [])) ≡ false
      → stream_rows cells insert batch total (some row ∷ rows) s
        ≡ stream_rows cells insert (batch ++ cells row ∷ []) total rows s
  unfolding stream_rows
  stream_rows_more [] total row rows s h = refl
  stream_rows_more (b ∷ batch) total row rows s h =
      ap
        (λ t. elim t as (λ _. Ended S) [
          | true ↦
              insert_then (b ∷ (batch ++ cells row ∷ [])) s
                (stream_rows cells insert [] (total + length (b ∷ (batch ++ cells row ∷ []))) rows)
          | false ↦ stream_rows cells insert (b ∷ (batch ++ cells row ∷ [])) total rows s
        ])
        h

  stream_rows-chunks_from :
      (batch : List Cells) (total : ℕ) (rows : List Row) (s : S)
      → stream_rows cells insert batch total (map some rows) s
        ≡ insert_all (chunks_from batch (map cells rows)) total s
  stream_rows-chunks_from [] total [] s = unfold stream_rows chunks_from insert_all in refl
  stream_rows-chunks_from (b ∷ batch) total [] s = unfold stream_rows chunks_from insert_all in refl
  stream_rows-chunks_from batch total (row ∷ rows) s =
      elim (Bool-cases (leb chunk_size (length (batch ++ cells row ∷ [])))) [
        | inl t ↦
            stream_rows_full batch total row (map some rows) s t
            ∙ insert_then_same (batch ++ cells row ∷ []) s _ _
                (stream_rows-chunks_from [] (total + length (batch ++ cells row ∷ [])) rows)
            ∙ unfold insert_all in
              refl
              ∙ ap (λ bs. insert_all bs total s)
                  (sym (chunks_full batch (cells row) (map cells rows) t))
        | inr f ↦
            stream_rows_more batch total row (map some rows) s f
            ∙ stream_rows-chunks_from (batch ++ cells row ∷ []) total rows s
            ∙ ap (λ bs. insert_all bs total s)
                (sym (chunks_more batch (cells row) (map cells rows) f))
      ]

  -- A transfer from a stream that does not fail inserts the rows' cells in their order, in batches
  -- of the full size but for the last, one after the other up to the first that fails.
  pub stream_rows_lem :
      (rows : List Row) (s : S)
      → (batches : List (List Cells)) × (concat batches ≡ map cells rows)
        × IsChunked batches
        × (stream_rows cells insert [] 0 (map some rows) s ≡ insert_all batches 0 s)
  stream_rows_lem rows s = (
    chunks_from [] (map cells rows),
    concat-chunks_from [] (map cells rows),
    chunks_from-IsChunked [] (map cells rows) (omega arith),
    stream_rows-chunks_from [] 0 rows s,
  )

  insert_all_total :
      ((b : List Cells) (s : S) → (after : S) × (insert b s ≡ some after))
      → (batches : List (List Cells)) (total : ℕ) (s : S)
      → (after : S) × (insert_all batches total s
          ≡ finished (total + length (concat batches)) after)
  unfolding insert_all
  insert_all_total accepts [] total s = (s, ap (λ n. finished n s) (omega arith))
  insert_all_total accepts (b ∷ batches) total s =
      let (after, e) = accepts b s in
      let (end, k) = insert_all_total accepts batches (total + length b) after in
      (
        end,
        insert_then-some b s (insert_all batches (total + length b)) after e
            ∙ k
            ∙ ap (λ n. finished n end) (omega (arith, length-append b (concat batches))),
      )

  -- If the destination takes every batch, a transfer from a stream that does not fail ends with the
  -- number of rows.
  pub stream_rows_total :
      ((b : List Cells) (s : S) → (after : S) × (insert b s ≡ some after))
      → (rows : List Row) (s : S)
      → (after : S) × (stream_rows cells insert [] 0 (map some rows) s
          ≡ finished (length rows) after)
  stream_rows_total accepts rows s =
      let (after, e) = insert_all_total accepts (chunks_from [] (map cells rows)) 0 s in
      (
        after,
        stream_rows-chunks_from [] 0 rows s
            ∙ e
            ∙ ap (λ n. finished n after)
                (omega (
                  arith,
                  ap length (concat-chunks_from [] (map cells rows)),
                  length-map cells rows,
                )),
      )

  stream_rows-failed_behind :
      (batch : List Cells) (total : ℕ) (rows : List Row) (later : List (Option Row)) (s : S)
      → (after : S) × (stream_rows cells insert batch total (map some rows ++ (none ∷ later)) s
          ≡ failed after)
  stream_rows-failed_behind [] total [] later s = (s, unfold stream_rows in refl)
  stream_rows-failed_behind (b ∷ batch) total [] later s = (s, unfold stream_rows in refl)
  stream_rows-failed_behind batch total (row ∷ rows) later s =
      elim (Bool-cases (leb chunk_size (length (batch ++ cells row ∷ [])))) [
        | inr f ↦
            let (after, e) =
              stream_rows-failed_behind (batch ++ cells row ∷ []) total rows later s in
            (after, stream_rows_more batch total row (map some rows ++ (none ∷ later)) s f ∙ e)
        | inl t ↦
            let full = stream_rows_full batch total row (map some rows ++ (none ∷ later)) s t in
            elim (Option-cases (insert (batch ++ cells row ∷ []) s)) [
              | inl e ↦ (s, full ∙ insert_then-none (batch ++ cells row ∷ []) s _ e)
              | inr (next, e) ↦
                  let (after, k) =
                    stream_rows-failed_behind [] (total + length (batch ++ cells row ∷ [])) rows
                      later next in
                  (after, full ∙ insert_then-some (batch ++ cells row ∷ []) s _ next e ∙ k)
            ]
      ]

  -- A stream that fails after some rows leads to an error, whatever the destination takes.
  pub stream_rows-failed :
      (rows : List Row) (later : List (Option Row)) (s : S)
      → (after : S) × (stream_rows cells insert [] 0 (map some rows ++ (none ∷ later)) s
          ≡ failed after)
  stream_rows-failed rows later s = stream_rows-failed_behind [] 0 rows later s
