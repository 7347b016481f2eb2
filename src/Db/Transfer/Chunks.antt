-- ===== src/Db/Transfer/Chunks.antt =====
-- The batches of a list of rows.
use dip_rust.Base.{
  subst, leb→le, ℕ, ◌≤◌, ◌<◌, ◌≡◌, refl, sym, ap, ◌∙◌, inl, inr, true, false, List, [], ◌∷◌, ◌++◌,
  append_assoc, arith, leb, Bool-cases, length, length-append,
}
use dip_rust.Db.Transfer.{chunk_size}

leb-false→lt : (a b : ℕ) → leb a b ≡ false → b < a
leb-false→lt a b h = ground arith

module _ {A : Type 0} where
  abbrev pub concat : List (List A) → List A
  concat [] = []
  concat (xs ∷ xss) = xs ++ concat xss

  -- Every batch but the last has the full size, and the last is not empty and no larger.
  abbrev pub IsChunked : List (List A) → Type 0
  IsChunked [] = Unit
  IsChunked (b ∷ []) = (0 < length b) × (length b ≤ chunk_size)
  IsChunked (b ∷ c ∷ batches) = (length b ≡ chunk_size) × IsChunked (c ∷ batches)

  -- The batches of a list behind a batch that is begun.
  unfoldable pub chunks_from : List A → List A → List (List A)
  chunks_from [] [] = []
  chunks_from (b ∷ batch) [] = (b ∷ batch) ∷ []
  chunks_from batch (x ∷ xs) = elim (leb chunk_size (length (batch ++ x ∷ []))) [
    | true ↦ (batch ++ x ∷ []) ∷ chunks_from [] xs
    | false ↦ chunks_from (batch ++ x ∷ []) xs
  ]

  pub chunks_full :
      (batch : List A) (x : A) (xs : List A)
      → leb chunk_size (length (batch ++ x ∷ [])) ≡ true
      → chunks_from batch (x ∷ xs) ≡ (batch ++ x ∷ []) ∷ chunks_from [] xs
  unfolding chunks_from
  chunks_full [] x xs h =
      ap
        (λ b. elim b as (λ _. List (List A)) [
          | true ↦ (x ∷ []) ∷ chunks_from [] xs
          | false ↦ chunks_from (x ∷ []) xs
        ])
        h
  chunks_full (b ∷ batch) x xs h =
      ap
        (λ t. elim t as (λ _. List (List A)) [
          | true ↦ (b ∷ (batch ++ x ∷ [])) ∷ chunks_from [] xs
          | false ↦ chunks_from (b ∷ (batch ++ x ∷ [])) xs
        ])
        h

  pub chunks_more :
      (batch : List A) (x : A) (xs : List A)
      → leb chunk_size (length (batch ++ x ∷ [])) ≡ false
      → chunks_from batch (x ∷ xs) ≡ chunks_from (batch ++ x ∷ []) xs
  unfolding chunks_from
  chunks_more [] x xs h =
      ap
        (λ b. elim b as (λ _. List (List A)) [
          | true ↦ (x ∷ []) ∷ chunks_from [] xs
          | false ↦ chunks_from (x ∷ []) xs
        ])
        h
  chunks_more (b ∷ batch) x xs h =
      ap
        (λ t. elim t as (λ _. List (List A)) [
          | true ↦ (b ∷ (batch ++ x ∷ [])) ∷ chunks_from [] xs
          | false ↦ chunks_from (b ∷ (batch ++ x ∷ [])) xs
        ])
        h

  pub concat-chunks_from : (batch xs : List A) → concat (chunks_from batch xs) ≡ batch ++ xs
  concat-chunks_from [] [] = unfold chunks_from in refl
  concat-chunks_from (b ∷ batch) [] = unfold chunks_from in refl
  concat-chunks_from batch (x ∷ xs) =
      elim (Bool-cases (leb chunk_size (length (batch ++ x ∷ [])))) [
        | inl t ↦
            ap concat (chunks_full batch x xs t)
            ∙ ap (λ ys. (batch ++ x ∷ []) ++ ys) (concat-chunks_from [] xs)
            ∙ append_assoc batch (x ∷ []) xs
        | inr f ↦
            ap concat (chunks_more batch x xs f)
            ∙ concat-chunks_from (batch ++ x ∷ []) xs
            ∙ append_assoc batch (x ∷ []) xs
      ]

  IsChunked-cons :
      (b : List A) (batches : List (List A))
      → length b ≡ chunk_size
      → IsChunked batches
      → IsChunked (b ∷ batches)
  IsChunked-cons b [] e h = (omega (arith, e), omega (arith, e))
  IsChunked-cons b (c ∷ batches) e h = (e, h)

  pub chunks_from-IsChunked :
      (batch xs : List A) → length batch < chunk_size → IsChunked (chunks_from batch xs)
  chunks_from-IsChunked [] [] h = unfold chunks_from in tt
  chunks_from-IsChunked (b ∷ batch) [] h = unfold chunks_from in (omega arith, omega (arith, h))
  chunks_from-IsChunked batch (x ∷ xs) h =
      elim (Bool-cases (leb chunk_size (length (batch ++ x ∷ [])))) [
        | inl t ↦ subst IsChunked (sym (chunks_full batch x xs t)) (
            IsChunked-cons (batch ++ x ∷ []) (chunks_from [] xs)
              (omega (
                arith,
                h,
                leb→le chunk_size (length (batch ++ x ∷ [])) t,
                length-append batch (x ∷ []),
              ))
              (chunks_from-IsChunked [] xs (omega arith)))
        | inr f ↦ subst IsChunked (sym (chunks_more batch x xs f)) (
            chunks_from-IsChunked (batch ++ x ∷ []) xs
              (omega (arith, leb-false→lt chunk_size (length (batch ++ x ∷ [])) f)))
      ]
