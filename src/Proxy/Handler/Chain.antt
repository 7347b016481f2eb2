-- ===== src/Proxy/Handler/Chain.antt =====
-- The parts of an error's description.
use dip_rust.Base.{
  ◌≡◌, sym, ◌↔◌, ◌⊎◌, inl, inr, true, List, [], ◌∷◌, ◌++◌, arith, Bool-cases, any, Has,
  Has-append_left, Has-append_right,
}
use dip_rust.Proxy.Handler.{chain_from}
use dip_rust.Text.Equality.{text_eq_iff}
use dip_rust.Text.{Text, text_eq}

abbrev pub IsDistinct : List Text → Type 0
IsDistinct [] = Unit
IsDistinct (x ∷ xs) = ¬ Has x xs × IsDistinct xs

any-Has : (m : Text) (xs : List Text) → (any (λ x. text_eq x m) xs ≡ true) ↔ Has m xs
any-Has m [] = (λ h. cc, λ h. absurd h)
any-Has m (x ∷ xs) = ground (arith, any-Has m xs, text_eq_iff x m)

Has-concat : (a : Text) (xs : List Text) (m : Text) → Has a (xs ++ m ∷ []) → Has a xs ⊎ (a ≡ m)
Has-concat a [] m (inl e) = inr e
Has-concat a [] m (inr k) = absurd k
Has-concat a (x ∷ xs) m (inl e) = inl (inl e)
Has-concat a (x ∷ xs) m (inr k) = elim (Has-concat a xs m k) [
  | inl old ↦ inl (inr old)
  | inr e ↦ inr e
]

IsDistinct-concat :
    (xs : List Text) (m : Text) → ¬ Has m xs → IsDistinct xs → IsDistinct (xs ++ m ∷ [])
IsDistinct-concat [] m h d = (h, tt)
IsDistinct-concat (x ∷ xs) m h d = (
  λ k. elim (Has-concat x xs m k) [ inl old ↦ d.0 old | inr e ↦ h (inl (sym e)) ],
  IsDistinct-concat xs m (λ k. h (inr k)) d.1,
)

-- The description of an error names every text of its chain once: the parts are distinct, each is
-- the error's own text or a source's, and each of those is a part.
pub chain_from_lem :
    (parts sources : List Text)
    → IsDistinct parts
    → IsDistinct (chain_from parts sources)
      × ((m : Text) → Has m (chain_from parts sources) ↔ (Has m parts ⊎ Has m sources))
unfolding chain_from
chain_from_lem parts [] d = (d, λ m. (λ k. inl k, λ k. elim k [ inl a ↦ a | inr b ↦ absurd b ]))
chain_from_lem parts (t ∷ sources) d = elim (Bool-cases (any (λ x. text_eq x t) parts)) [
  | inl known ↦
      let (dist, mem) = chain_from_lem parts sources d in
      rw known (
        dist,
        λ m. (
          λ k. elim ((mem m).0 k) [ inl a ↦ inl a | inr b ↦ inr (inr b) ],
          λ k. elim k [
            | inl a ↦ (mem m).1 (inl a)
            | inr b ↦ elim b [
              | inl e ↦ (mem m).1 (inl (rw e ((any-Has t parts).0 known)))
              | inr c ↦ (mem m).1 (inr c)
            ]
          ],
        ),
      )
  | inr new ↦
      let (dist, mem) =
        chain_from_lem (parts ++ t ∷ []) sources
          (IsDistinct-concat parts t (λ k. cc ((any-Has t parts).1 k, new)) d) in
      rw new (
        dist,
        λ m. (
          λ k. elim ((mem m).0 k) [
            | inl a ↦ elim (Has-concat m parts t a) [ inl b ↦ inl b | inr e ↦ inr (inl e) ]
            | inr b ↦ inr (inr b)
          ],
          λ k. elim k [
            | inl a ↦ (mem m).1 (inl (Has-append_left m parts (t ∷ []) a))
            | inr b ↦ elim b [
              | inl e ↦ (mem m).1 (inl (Has-append_right m parts (t ∷ []) (inl e)))
              | inr c ↦ (mem m).1 (inr c)
            ]
          ],
        ),
      )
]
