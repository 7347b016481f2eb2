-- ===== src/Text/Lines.antt =====
-- The lines of a text.
use dip_rust.Base.{
  ℕ, ◌≡◌, refl, ap, ◌∙◌, true, false, List, [], ◌∷◌, ◌++◌, append_assoc, append-nil, arith, ◌==◌,
}
use dip_rust.Text.{Text, contains_char, drop_cr, lines_from, lines}

lines_from_other :
    (start : Text) (c : ℕ) (s : Text)
    → (c == b'\n') ≡ false
    → lines_from start (c ∷ s) ≡ lines_from (start ++ c ∷ []) s
unfolding lines_from
lines_from_other start c s h =
    ap
      (λ b. elim b as (λ _. List Text) [
        | true ↦ drop_cr start ∷ lines_from [] s
        | false ↦ lines_from (start ++ c ∷ []) s
      ])
      h

lines_from-append :
    (start line s : Text)
    → contains_char b'\n' line ≡ false
    → lines_from start (line ++ (b'\n' ∷ s)) ≡ drop_cr (start ++ line) ∷ lines s
unfolding contains_char
lines_from-append start [] s h = rw (append-nil start) (unfold lines_from in refl)
lines_from-append start (c ∷ line) s h =
    let f : (c == b'\n') ≡ false = ground arith in
    lines_from_other start c (line ++ (b'\n' ∷ s)) f
    ∙ lines_from-append (start ++ c ∷ []) line s (ground arith)
    ∙ ap (λ l. drop_cr l ∷ lines s) (append_assoc start (c ∷ []) line)

drop_cr_other : (s : Text) (c : ℕ) → (c == b'\r') ≡ false → drop_cr (s ++ c ∷ []) ≡ s ++ c ∷ []
unfolding drop_cr
drop_cr_other [] c h = rw h
drop_cr_other (d ∷ []) c h = rw h
drop_cr_other (d ∷ e ∷ s) c h = rw (drop_cr_other (e ∷ s) c h)

-- The first line of a text is the one that a line feed ends, unless it ends in a carriage return.
pub lines-append :
    (line : Text) (c : ℕ) (s : Text)
    → contains_char b'\n' (line ++ c ∷ []) ≡ false
    → (c == b'\r') ≡ false
    → lines ((line ++ c ∷ []) ++ (b'\n' ∷ s)) ≡ (line ++ c ∷ []) ∷ lines s
lines-append line c s h k =
    lines_from-append [] (line ++ c ∷ []) s h ∙ ap (λ x. x ∷ lines s) (drop_cr_other line c k)
