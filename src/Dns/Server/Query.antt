-- ===== src/Dns/Server/Query.antt =====
-- Questions in wire format, and what the parsers make of them.
use dip_rust.Base.{
  subst, ℕ, zero, suc, ◌+◌, ◌≤◌, ◌<◌, ◌≡◌, refl, sym, ap, ◌∙◌, List, [], ◌∷◌, ◌++◌, append_assoc,
  append-nil, arith, length, All, length-append,
}
use dip_rust.Dns.Exec.{found, index, index-append, slice-append}
use dip_rust.Dns.Server.{Bytes, read_label, read_name, skip_name}
use dip_rust.Text.Utf8.{from_utf8-ascii}
use dip_rust.Text.{Text, codes, join}

-- A label of ASCII characters that is neither empty nor read as a pointer.
pub record IsLabel (l : Text) : Type 0 where
  pub nonempty : 0 < length l
  pub short : length l < 0xc0
  pub ascii : All (λ c. c < 0x80) l

unfoldable pub encode_name : List Text → Bytes
encode_name [] = 0 ∷ []
encode_name (l ∷ ls) = length l ∷ (l ++ encode_name ls)

-- One round of each loop at a label, and the last round.
module _ (fuel : ℕ) (bytes : Bytes) (pos : ℕ) where
  read_name_step :
      (done : List Text) (len : ℕ) (label : Text)
      → pos + 1 + len ≤ length bytes
      → 0 < len
      → len < 0xc0
      → index bytes pos ≡ found len
      → read_label bytes (pos + 1) len ≡ found label
      → read_name (suc fuel) bytes pos done
        ≡ read_name fuel bytes (pos + 1 + len) (done ++ label ∷ [])
  unfolding read_name
  read_name_step done len label fits z s e f = ground arith

  skip_name_step :
      (len : ℕ)
      → pos + 1 + len ≤ length bytes
      → 0 < len
      → len < 0xc0
      → index bytes pos ≡ found len
      → skip_name (suc fuel) bytes pos ≡ skip_name fuel bytes (pos + len + 1)
  unfolding skip_name
  skip_name_step len fits z s e = ground arith

  read_name_end :
      (done : List Text)
      → pos < length bytes
      → index bytes pos ≡ found 0
      → read_name (suc fuel) bytes pos done ≡ found (join (codes ".") done, pos + 1)
  unfolding read_name
  read_name_end done fits e = ground arith

  skip_name_end :
      pos < length bytes
      → index bytes pos ≡ found 0
      → skip_name (suc fuel) bytes pos ≡ found (pos + 1)
  unfolding skip_name
  skip_name_end fits e = ground arith

-- What the loops read where a label stands in a packet.
record LabelAt (bytes : Bytes) (pos : ℕ) (l : Text) : Type 0 where
  fits : pos + 1 + length l ≤ length bytes
  len_is : index bytes pos ≡ found (length l)
  label_is : read_label bytes (pos + 1) (length l) ≡ found l

label_at :
    (pre l rest : Bytes) (pos : ℕ)
    → pos ≡ length pre
    → IsLabel l
    → LabelAt (pre ++ (length l ∷ (l ++ rest))) pos l
unfolding read_label
label_at pre l rest pos e h =
    let shape : pre ++ (length l ∷ (l ++ rest)) ≡ (pre ++ (length l ∷ [])) ++ (l ++ rest) =
      simp append_assoc in
    let before : pos + 1 ≡ length (pre ++ (length l ∷ [])) =
      omega (arith, length-append {0} pre (length l ∷ [])) in
    record {
      fits =
          omega (arith, length-append {0} pre (length l ∷ (l ++ rest)), length-append {0} l rest);
      len_is = rw e (index-append pre (length l) (l ++ rest));
      label_is =
          ap (λ bytes. read_label bytes (pos + 1) (length l)) shape
          ∙ rw
              (
                slice-append (pre ++ (length l ∷ [])) l rest (pos + 1) (pos + 1 + length l) before
                    (omega arith),
                read_label,
              )
              (ground (arith, from_utf8-ascii l h.ascii));
    }

module _ (bytes post : Bytes) where
  -- The packet up to a position, and a name behind it.
  unfoldable pub NameAt : Bytes → List Text → ℕ → Type 0
  NameAt pre ls pos = (bytes ≡ pre ++ (encode_name ls ++ post)) × (pos ≡ length pre)

  name_end :
      (pre : Bytes) (pos : ℕ)
      → NameAt pre [] pos
      → (pos < length bytes) × (index bytes pos ≡ found 0)
  unfolding NameAt encode_name
  name_end pre pos (shape, e) =
      rw (shape, e) (omega (arith, length-append {0} pre (0 ∷ post)), index-append pre 0 post)

  name_label :
      (pre : Bytes) (l : Text) (ls : List Text) (pos : ℕ)
      → NameAt pre (l ∷ ls) pos
      → IsLabel l
      → LabelAt bytes pos l
  unfolding NameAt encode_name
  name_label pre l ls pos (shape, e) h =
      subst (λ b. LabelAt b pos l) (sym (shape ∙ simp append_assoc))
        (label_at pre l (encode_name ls ++ post) pos e h)

  name_next :
      (pre : Bytes) (l : Text) (ls : List Text) (pos next : ℕ)
      → NameAt pre (l ∷ ls) pos
      → next ≡ pos + 1 + length l
      → NameAt (pre ++ (length l ∷ l)) ls next
  unfolding NameAt encode_name
  name_next pre l ls pos next (shape, e) f =
      (shape ∙ simp append_assoc, omega (arith, length-append {0} pre (length l ∷ l)))

  name_length :
      (l : Text) (ls : List Text)
      → length (encode_name (l ∷ ls)) ≡ 1 + length l + length (encode_name ls)
  unfolding encode_name
  name_length l ls = omega (arith, length-append {0} l (encode_name ls))

  pub read_name-NameAt :
      (fuel : ℕ) (pre : Bytes) (done ls : List Text) (pos : ℕ)
      → length ls < fuel
      → NameAt pre ls pos
      → All IsLabel ls
      → read_name fuel bytes pos done
        ≡ found (join (codes ".") (done ++ ls), pos + length (encode_name ls))
  read_name-NameAt zero pre done ls pos f n h = absurd (omega arith)
  read_name-NameAt (suc fuel) pre done [] pos f n h =
      let (inside, zero_there) = name_end pre pos n in
      read_name_end fuel bytes pos done inside zero_there
      ∙ rw append-nil (unfold encode_name in refl)
  read_name-NameAt (suc fuel) pre done (l ∷ ls) pos f n (h, hs) =
      let at = name_label pre l ls pos n h in
      read_name_step fuel bytes pos done (length l) l at.fits h.nonempty h.short at.len_is
        at.label_is
      ∙ read_name-NameAt fuel (pre ++ (length l ∷ l)) (done ++ l ∷ []) ls (pos + 1 + length l)
          (omega arith) (name_next pre l ls pos (pos + 1 + length l) n refl) hs
      ∙ rw (append_assoc, name_length)
          (ap (λ p. found (join (codes ".") (done ++ l ∷ ls), p)) (omega arith))

  pub skip_name-NameAt :
      (fuel : ℕ) (pre : Bytes) (ls : List Text) (pos : ℕ)
      → length ls < fuel
      → NameAt pre ls pos
      → All IsLabel ls
      → skip_name fuel bytes pos ≡ found (pos + length (encode_name ls))
  skip_name-NameAt zero pre ls pos f n h = absurd (omega arith)
  skip_name-NameAt (suc fuel) pre [] pos f n h =
      let (inside, zero_there) = name_end pre pos n in
      skip_name_end fuel bytes pos inside zero_there ∙ unfold encode_name in refl
  skip_name-NameAt (suc fuel) pre (l ∷ ls) pos f n (h, hs) =
      let at = name_label pre l ls pos n h in
      skip_name_step fuel bytes pos (length l) at.fits h.nonempty h.short at.len_is
      ∙ skip_name-NameAt fuel (pre ++ (length l ∷ l)) ls (pos + length l + 1) (omega arith)
          (name_next pre l ls pos (pos + length l + 1) n (omega arith)) hs
      ∙ rw name_length (ap found (omega arith))

-- A packet with one question: the header with the counts of the other sections, a name, the type
-- and the class, and what stands behind the question, such as an OPT record.
unfoldable pub one_question : ℕ → ℕ → ℕ → ℕ → Bytes → List Text → ℕ → ℕ → ℕ → ℕ → Bytes → Bytes
one_question id_hi id_lo flags_hi flags_lo counts labels type_hi type_lo class_hi class_lo behind =
    id_hi
    ∷ id_lo
    ∷ flags_hi
    ∷ flags_lo
    ∷ 0
    ∷ 1
    ∷ (counts ++ (encode_name labels ++ (type_hi ∷ type_lo ∷ class_hi ∷ class_lo ∷ behind)))
