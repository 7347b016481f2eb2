-- ===== src/Dns/Server/Reply.antt =====
-- What the server answers to a well-formed query.
use dip_rust.Base.{
  any_of_Has, any_sound, le→ltb-false, ℕ, ◌+◌, ◌≤◌, ◌<◌, ◌≡◌, refl, sym, ap, ◌∙◌, ◌≢◌, ◌⊎◌, inl,
  inr, Bool, true, false, ◌||◌, Option, none, some, List, [], ◌∷◌, ◌++◌, append_assoc, arith, ◌==◌,
  if◌then◌else◌, Bool-cases, length, drop, any, Has, All, length-append,
}
use dip_rust.Text.Equality.{text_eq_iff}
use dip_rust.Text.Affix.{ends_with-append, ends_with_sound}
use dip_rust.Dns.Exec.{missing, Exec, slice-append, slice, found, index, index-append}
use dip_rust.Dns.Server.Replies.{sent_back, Picked, await_reply-Picked}
use dip_rust.Dns.Server.Query.{
  IsLabel, encode_name, NameAt, read_name-NameAt, skip_name-NameAt, one_question,
}
use dip_rust.Dns.Server.{
  await_reply, ends_with, forward, text_eq, matches_tld, respond, to_be16, answer_record,
  make_response, Bytes, from_be, read_name, skip_name, name_fuel, parse_first_question,
  skip_questions, question_section_end,
}
use dip_rust.Text.{Text, codes, join}

parse_at :
    (bytes : Bytes) (name : Text) (pos hi lo : ℕ)
    → 12 ≤ length bytes
    → read_name (name_fuel bytes) bytes 12 [] ≡ found (name, pos)
    → pos + 2 ≤ length bytes
    → index bytes pos ≡ found hi
    → index bytes (pos + 1) ≡ found lo
    → parse_first_question bytes ≡ found (name, from_be hi lo)
unfolding parse_first_question
parse_at bytes name pos hi lo long read fits h l = ground arith

end_at :
    (bytes : Bytes) (pos : ℕ)
    → 12 ≤ length bytes
    → index bytes 4 ≡ found 0
    → index bytes 5 ≡ found 1
    → skip_name (name_fuel bytes) bytes 12 ≡ found pos
    → pos + 4 ≤ length bytes
    → question_section_end bytes ≡ found (pos + 4)
unfolding question_section_end skip_questions
end_at bytes pos long h l skipped fits = ground arith

index_at :
    (pre : Bytes) (b : ℕ) (post : Bytes) (pos : ℕ)
    → pos ≡ length pre
    → index (pre ++ (b ∷ post)) pos ≡ found b
index_at pre b post pos e = rw e (index-append pre b post)

response_at :
    (bytes name id questions : Bytes) (qtype hi lo end : ℕ)
    → 12 ≤ length bytes
    → parse_first_question bytes ≡ found (name, qtype)
    → question_section_end bytes ≡ found end
    → index bytes 4 ≡ found hi
    → index bytes 5 ≡ found lo
    → slice bytes 0 2 ≡ found id
    → slice bytes 12 end ≡ found questions
    → make_response bytes
      ≡ found (
          id
          ++ ((0x81 ∷ 0x80 ∷ [])
              ++ (to_be16 (from_be hi lo)
                  ++ (to_be16 (if qtype == 1 then 1 else 0)
                      ++ ((0x00 ∷ 0x00 ∷ [])
                          ++ ((0x00 ∷ 0x00 ∷ [])
                              ++ (questions ++ (if qtype == 1 then answer_record else []))))))))
unfolding make_response
response_at bytes name id questions qtype hi lo end long p e h l i q =
    rw (le→ltb-false (length bytes) 12 long, p, e, h, l, i, q, make_response)

module _ (a b f g : ℕ) (counts : Bytes) (labels : List Text) (th tl ch cl : ℕ) (behind : Bytes)
    (six : length counts ≡ 6) (h : All IsLabel labels) where
  abbrev query : Bytes
  query = one_question a b f g counts labels th tl ch cl behind

  abbrev header : Bytes
  header = a ∷ b ∷ f ∷ g ∷ 0 ∷ 1 ∷ counts

  abbrev ending : Bytes
  ending = th ∷ tl ∷ ch ∷ cl ∷ behind

  name_at : NameAt query ending header labels 12
  unfolding NameAt one_question
  name_at = (refl, omega (arith, six))

  length-query : length query ≡ 12 + length (encode_name labels) + 4 + length behind
  unfolding one_question
  length-query = omega (
    arith,
    six,
    length-append {0} counts (encode_name labels ++ ending),
    length-append {0} (encode_name labels) ending,
  )

  labels_le : (ls : List Text) → length ls < length (encode_name ls)
  unfolding encode_name
  labels_le [] = omega arith
  labels_le (l ∷ ls) = omega (arith, labels_le ls, length-append {0} l (encode_name ls))

  name_read :
      read_name (name_fuel query) query 12 []
      ≡ found (join (codes ".") labels, 12 + length (encode_name labels))
  name_read =
      read_name-NameAt query ending (name_fuel query) header [] labels 12
        (omega (arith, labels_le labels, length-query)) name_at h

  name_skipped : skip_name (name_fuel query) query 12 ≡ found (12 + length (encode_name labels))
  name_skipped =
      skip_name-NameAt query ending (name_fuel query) header labels 12
        (omega (arith, labels_le labels, length-query)) name_at h

  name_end : ℕ
  name_end = 12 + length (encode_name labels)

  type_read : (index query name_end ≡ found th) × (index query (name_end + 1) ≡ found tl)
  unfolding one_question name_end
  type_read =
      let e : query ≡ (header ++ encode_name labels) ++ ending = simp append_assoc in
      let e' : query ≡ ((header ++ encode_name labels) ++ (th ∷ [])) ++ (tl ∷ ch ∷ cl ∷ behind) =
        simp append_assoc in
      (
        ap (λ bytes. index bytes name_end) e
            ∙ index_at (header ++ encode_name labels) th (tl ∷ ch ∷ cl ∷ behind) name_end
                (omega (arith, six, length-append {0} header (encode_name labels))),
        ap (λ bytes. index bytes (name_end + 1)) e'
            ∙ index_at ((header ++ encode_name labels) ++ (th ∷ [])) tl (ch ∷ cl ∷ behind)
                (name_end + 1)
                (omega (
                  arith,
                  six,
                  length-append {0} header (encode_name labels),
                  length-append {0} (header ++ encode_name labels) (th ∷ []),
                )),
      )

  -- The question of a packet with one question is read as the name with its labels joined by dots,
  -- and its type. The labels are ASCII, not empty and shorter than 192 bytes, without compression;
  -- the counts of the other sections and what stands behind the question are arbitrary.
  pub parse_first_question_lem :
      parse_first_question query ≡ found (join (codes ".") labels, from_be th tl)
  unfolding name_end
  parse_first_question_lem =
      parse_at query (join (codes ".") labels) (12 + length (encode_name labels)) th tl
        (omega (arith, length-query)) name_read (omega (arith, length-query)) type_read.0
        type_read.1

  question_end : ℕ
  question_end = 12 + length (encode_name labels) + 4

  question_section_end_lem : question_section_end query ≡ found question_end
  unfolding index one_question question_end
  question_section_end_lem =
      end_at query (12 + length (encode_name labels)) (omega (arith, length-query)) refl refl
        name_skipped (omega (arith, length-query))

  -- The answer to a query for one name: the query's id, flags and counts, its question, and for an
  -- A query the record that points to the question's name and holds 127.0.0.1.
  abbrev pub local_answer : Bytes
  local_answer =
      let is_a = from_be th tl == 1 in
      a
      ∷ b
      ∷ 0x81
      ∷ 0x80
      ∷ 0
      ∷ 1
      ∷ 0
      ∷ (if is_a then 1 else 0)
      ∷ 0
      ∷ 0
      ∷ 0
      ∷ 0
      ∷ ((encode_name labels ++ (th ∷ tl ∷ ch ∷ cl ∷ [])) ++ (if is_a then answer_record else []))

  -- The local answer to a packet with one question has the packet's id, the flags and counts, its
  -- question but nothing of what stands behind it, such as an OPT record, and for an A query the
  -- record with 127.0.0.1 that points to the question's name. The labels are ASCII, not empty and
  -- shorter than 192 bytes.
  pub make_response_lem : make_response query ≡ found local_answer
  make_response_lem =
      response_at query (join (codes ".") labels) (a ∷ b ∷ []) question (from_be th tl) 0 1
        question_end (omega (arith, length-query)) parse_first_question_lem question_section_end_lem
        (unfold index one_question in refl) (unfold index one_question in refl) id_read
        questions_read
      ∙ flags (from_be th tl == 1) question
    where
      id_read : slice query 0 2 ≡ found (a ∷ b ∷ [])
      id_read = ap (λ bytes. slice bytes 0 2) shape ∙ slice-append [] (a ∷ b ∷ []) _ 0 2 refl refl
        where
          shape : query ≡ [] ++ ((a ∷ b ∷ []) ++ drop 2 query)
          shape = unfold one_question in refl

      question : Bytes
      question = encode_name labels ++ (th ∷ tl ∷ ch ∷ cl ∷ [])

      questions_read : slice query 12 question_end ≡ found question
      questions_read =
          ap (λ bytes. slice bytes 12 question_end) shape
          ∙ slice-append header question behind 12 question_end (omega (arith, six)) (
              unfold question_end in
              (omega (arith, length-append {0} (encode_name labels) (th ∷ tl ∷ ch ∷ cl ∷ []))))
        where
          shape : query ≡ header ++ (question ++ behind)
          shape =
              unfold one_question in
              (ap (λ s. header ++ s)
                (sym (append_assoc (encode_name labels) (th ∷ tl ∷ ch ∷ cl ∷ []) behind)))

      flags :
          (is_a : Bool) (questions : Bytes)
          → ◌≡◌ {A = Exec Bytes}
              (found (
                (a ∷ b ∷ [])
                ++ ((0x81 ∷ 0x80 ∷ [])
                    ++ (to_be16 (from_be 0 1)
                        ++ (to_be16 (if is_a then 1 else 0)
                            ++ ((0x00 ∷ 0x00 ∷ [])
                                ++ ((0x00 ∷ 0x00 ∷ [])
                                    ++ (questions ++ (if is_a then answer_record else [])))))))))
              (found (
                a
                ∷ b
                ∷ 0x81
                ∷ 0x80
                ∷ 0
                ∷ 1
                ∷ 0
                ∷ (if is_a then 1 else 0)
                ∷ 0
                ∷ 0
                ∷ 0
                ∷ 0
                ∷ (questions ++ (if is_a then answer_record else []))))
      flags true questions = refl
      flags false questions = refl

  module _ (to_lowercase : Text → Text) (tlds : List Text) (datagrams : Option (List Bytes)) where
    -- A packet with one question for a name that in lower case is a configured domain, or ends in a
    -- dot and one, is answered locally, whatever the upstream sends. The labels are ASCII and shorter
    -- than 192 bytes; anything may stand behind the question.
    pub respond_local :
        (tld pre : Text)
        → Has tld tlds
        → (to_lowercase (join (codes ".") labels) ≡ tld)
          ⊎ (to_lowercase (join (codes ".") labels) ≡ pre ++ (b'.' ∷ tld))
        → respond to_lowercase tlds query datagrams ≡ found local_answer
    unfolding respond matches_tld
    respond_local tld pre m e =
        rw (parse_first_question_lem, any_of_Has _ tld tlds m below, make_response_lem)
      where
        below :
            (text_eq (to_lowercase (join (codes ".") labels)) tld
              || ends_with (b'.' ∷ tld) (to_lowercase (join (codes ".") labels)))
            ≡ true
        below = elim e [
          | inl same ↦ ground (arith, text_eq_iff (to_lowercase (join (codes ".") labels)) tld)
          | inr f ↦ rw f (ground (arith, ends_with-append pre (b'.' ∷ tld)))
        ]

  module _ (to_lowercase : Text → Text) (tlds : List Text) where
    -- A packet with one question for any other name gets back the first datagram of the upstream
    -- that starts with the packet's id, cut to 4096 bytes, and nothing if there is none, or if the
    -- upstream cannot be reached. The labels are ASCII and shorter than 192 bytes; anything may stand
    -- behind the question.
    pub respond_foreign :
        ((tld : Text)
          → Has tld tlds
          → (to_lowercase (join (codes ".") labels) ≢ tld)
            × ((pre : Text) → to_lowercase (join (codes ".") labels) ≢ pre ++ (b'.' ∷ tld)))
        → (datagrams : List Bytes)
        → (respond to_lowercase tlds query none ≡ missing)
          × ((reply : Option Bytes) × (respond to_lowercase tlds query (some datagrams)
                ≡ sent_back reply)
              × Picked query datagrams reply)
    unfolding respond matches_tld forward
    respond_foreign other datagrams = (
      rw (parse_first_question_lem, not_below, le→ltb-false (length query) 12 long),
      (
        await_reply query datagrams,
        rw (parse_first_question_lem, not_below, le→ltb-false (length query) 12 long)
            (back (await_reply query datagrams)),
        await_reply-Picked query datagrams,
      ),
    )
      where
        long : 12 ≤ length query
        long = omega (arith, length-query)

        back :
            (o : Option Bytes)
            → elim o as (λ _. Exec Bytes) [ none ↦ missing | some r ↦ found r ] ≡ sent_back o
        back none = refl
        back (some r) = refl

        name : Text
        name = to_lowercase (join (codes ".") labels)

        clash :
            (tld : Text)
            → Has tld tlds
            → (text_eq name tld || ends_with (b'.' ∷ tld) name) ≡ true
            → ⊥
        clash tld m t = elim (Bool-cases (text_eq name tld)) [
          | inl same ↦ (other tld m).0 ((text_eq_iff name tld).0 same)
          | inr no_name ↦
              let (pre, e) = ends_with_sound (b'.' ∷ tld) name (ground arith) in
              (other tld m).1 pre e
        ]

        not_below : any (λ tld. text_eq name tld || ends_with (b'.' ∷ tld) name) tlds ≡ false
        not_below =
            elim (Bool-cases (any (λ tld. text_eq name tld || ends_with (b'.' ∷ tld) name) tlds)) [
              | inr f ↦ f
              | inl t ↦ let (tld, m, hit) = any_sound _ tlds t in absurd (clash tld m hit)
            ]
