-- ===== src/Dns/Server/Safety.antt =====
-- The panics and the loops of src/dns/server.rs, function by function.
use dip_rust.Base.{
  ltb-false→le, ℕ, zero, suc, ◌+◌, ◌-◌, ◌≤◌, ◌<◌, ◌≡◌, refl, ◌⊎◌, inl, inr, Option, none, some,
  List, [], ◌∷◌, ◌++◌, arith, ltb, leb, ◌==◌, if◌then◌else◌, length, take, drop, length-append,
  length-take,
}
use dip_rust.Dns.Exec.{
  Exec, found, missing, panic, out_of_fuel, Returns, index, slice, slice-found, Returns->>=,
  Returns-if, index-Returns, Anything,
}
use dip_rust.Dns.Server.{
  Bytes, read_label, read_name, skip_name, name_fuel, parse_first_question, skip_questions,
  question_section_end, make_response, is_below, matches_tld, respond, to_be16, from_be,
  answer_record, await_reply, into_buffer, forward, max_packet,
}
use dip_rust.Text.Equality.{text_eq_iff}
use dip_rust.Text.Utf8.{from_utf8}
use dip_rust.Text.{Text}

read_label-Returns :
    (bytes : Bytes) (from len : ℕ)
    → from + len ≤ length bytes
    → Returns (λ _. Unit {0}) (read_label bytes from len)
unfolding read_label
read_label-Returns bytes from len h =
    rw (slice-found bytes from (from + len) (omega arith) h, read_label)
      (decoded (from_utf8 (take (from + len - from) (drop from bytes))))
  where
    decoded :
        (o : Option Text) → Returns Anything (elim o [ none ↦ missing | some label ↦ found label ])
    decoded none = tt
    decoded (some label) = tt

read_name-Returns :
    (low fuel : ℕ) (bytes : Bytes) (pos : ℕ) (labels : List Text)
    → 0 < fuel
    → length bytes < fuel + pos
    → low ≤ pos
    → Returns (λ r. low < r.1) (read_name fuel bytes pos labels)
unfolding read_name
read_name-Returns low zero bytes pos labels z h l = absurd (omega arith)
read_name-Returns low (suc fuel) bytes pos labels z h l =
    let P : Text × ℕ → Type 0 = λ r. low < r.1 in
    Returns-if P (leb (length bytes) pos) _ _ (λ _. tt)
      (λ inside.
        Returns->>= Anything P (index bytes pos) _ (index-Returns bytes pos (ground arith))
          (λ len _.
            Returns-if P (len == 0) _ _ (λ _. omega arith)
              (λ positive.
                Returns-if P (leb 0xc0 len) _ _ (λ _. omega arith)
                  (λ _.
                    Returns-if P (ltb (length bytes) (pos + 1 + len)) _ _ (λ _. tt)
                      (λ fits.
                        Returns->>= Anything P (read_label bytes (pos + 1) len) _
                          (read_label-Returns bytes (pos + 1) len
                            (omega (arith, ltb-false→le _ _ fits)))
                          (λ label _.
                            read_name-Returns low fuel bytes (pos + 1 + len) (labels ++ label ∷ [])
                              (omega (arith, ltb-false→le _ _ fits)) (omega arith)
                              (omega arith)))))))

skip_name-Returns :
    (low fuel : ℕ) (bytes : Bytes) (pos : ℕ)
    → 0 < fuel
    → length bytes < fuel + pos
    → low ≤ pos
    → Returns (λ p. low < p) (skip_name fuel bytes pos)
unfolding skip_name
skip_name-Returns low zero bytes pos z h l = absurd (omega arith)
skip_name-Returns low (suc fuel) bytes pos z h l =
    let P : ℕ → Type 0 = λ p. low < p in
    Returns-if P (leb (length bytes) pos) _ _ (λ _. tt)
      (λ inside.
        let within : pos < length bytes = ground arith in
        Returns->>= Anything P (index bytes pos) _ (index-Returns bytes pos within) (λ len _.
          Returns-if P (len == 0) _ _ (λ _. omega arith)
            (λ positive.
              Returns-if P (leb 0xc0 len) _ _ (λ _. omega arith)
                (λ _.
                  skip_name-Returns low fuel bytes (pos + len + 1) (omega arith) (omega arith)
                    (omega arith)))))

-- The first question is found or missing, whatever the packet.
pub parse_first_question-Returns : (bytes : Bytes) → Returns Anything (parse_first_question bytes)
unfolding parse_first_question
parse_first_question-Returns bytes =
    Returns-if Anything (ltb (length bytes) 12) _ _ (λ _. tt)
      (λ long.
        Returns->>= (λ r. 12 < r.1) Anything (read_name (name_fuel bytes) bytes 12 []) _
          (read_name-Returns 12 (name_fuel bytes) bytes 12 [] (omega arith) (omega arith)
            (omega arith))
          (λ (name, pos) _.
            Returns-if Anything (ltb (length bytes) (pos + 2)) _ _ (λ _. tt)
              (λ fits.
                let enough = ltb-false→le (length bytes) (pos + 2) fits in
                Returns->>= Anything Anything (index bytes pos) _
                  (index-Returns bytes pos (omega arith))
                  (λ hi _.
                    Returns->>= Anything Anything (index bytes (pos + 1)) _
                      (index-Returns bytes (pos + 1) (omega arith)) (λ lo _. tt)))))

abbrev IsInside : ℕ → Bytes → ℕ → Type 0
IsInside low bytes p = (low ≤ p) × (p ≤ length bytes)

skip_questions-Returns :
    (low rounds : ℕ) (bytes : Bytes) (pos : ℕ)
    → IsInside low bytes pos
    → Returns (IsInside low bytes) (skip_questions rounds bytes pos)
unfolding skip_questions
skip_questions-Returns low zero bytes pos h = h
skip_questions-Returns low (suc rounds) bytes pos h =
    Returns->>= (λ p. low < p) (IsInside low bytes) (skip_name (name_fuel bytes) bytes pos) _
      (skip_name-Returns low (name_fuel bytes) bytes pos (omega arith) (omega arith) h.0)
      (λ after l.
        Returns-if (IsInside low bytes) (ltb (length bytes) (after + 4)) _ _ (λ _. tt)
          (λ fits.
            skip_questions-Returns low rounds bytes (after + 4)
              (omega arith, ltb-false→le _ _ fits)))

-- The end of the question section lies behind the header and within the packet.
pub question_section_end-Returns :
    (bytes : Bytes) → Returns (IsInside 12 bytes) (question_section_end bytes)
unfolding question_section_end
question_section_end-Returns bytes =
    Returns-if (IsInside 12 bytes) (ltb (length bytes) 12) _ _ (λ _. tt)
      (λ long.
        let enough = ltb-false→le (length bytes) 12 long in
        Returns->>= Anything (IsInside 12 bytes) (index bytes 4) _
          (index-Returns bytes 4 (omega arith))
          (λ hi _.
            Returns->>= Anything (IsInside 12 bytes) (index bytes 5) _
              (index-Returns bytes 5 (omega arith))
              (λ lo _. skip_questions-Returns 12 _ bytes 12 (omega arith, enough))))

slice-Returns :
    (bytes : Bytes) (from to : ℕ)
    → from ≤ to
    → to ≤ length bytes
    → Returns (λ r. r ≡ take (to - from) (drop from bytes)) (slice bytes from to)
slice-Returns bytes from to h k = rw (slice-found bytes from to h k) refl

take_two : (query rest : Bytes) → 2 ≤ length query → take 2 (take 2 query ++ rest) ≡ take 2 query
take_two [] rest h = absurd (omega arith)
take_two (a ∷ []) rest h = absurd (omega arith)
take_two (a ∷ b ∷ query) rest h = refl

-- A packet that may be sent to the client who sent the query: it has the query's transaction id.
abbrev pub EchoesId : Bytes → Bytes → Type 0
EchoesId query r = take 2 r ≡ take 2 query

abbrev IsLocal : Bytes → Bytes → Type 0
IsLocal query r = EchoesId query r × (length r ≤ length query + 16)

-- The header, the questions and the answer of a response.
response_parts :
    (query id questions tail : Bytes) (hi lo count : ℕ)
    → 12 ≤ length query
    → id ≡ take 2 query
    → length questions ≤ length query - 12
    → length tail ≤ 16
    → IsLocal query (
        id
        ++ ((0x81 ∷ 0x80 ∷ [])
            ++ (to_be16 (from_be hi lo)
                ++ (to_be16 count
                    ++ ((0x00 ∷ 0x00 ∷ []) ++ ((0x00 ∷ 0x00 ∷ []) ++ (questions ++ tail)))))))
response_parts query id questions tail hi lo count long e q t = (
  rw e (take_two query _ (omega arith)),
  rw e (
      omega (
        arith,
        length-append {0} (take 2 query) (
            (0x81 ∷ 0x80 ∷ [])
            ++ (to_be16 (from_be hi lo)
                ++ (to_be16 count
                    ++ ((0x00 ∷ 0x00 ∷ []) ++ ((0x00 ∷ 0x00 ∷ []) ++ (questions ++ tail)))))),
        length-take {0} 2 query,
        length-append {0} questions tail,
      )),
)

answer_length : (qtype : ℕ) → length (if qtype == 1 then answer_record else []) ≤ 16
answer_length qtype = ground arith

-- The local answer has the query's id and at most 16 bytes more than the query.
make_response-Returns : (query : Bytes) → Returns (IsLocal query) (make_response query)
unfolding make_response
make_response-Returns query =
    let P : Bytes → Type 0 = IsLocal query in
    Returns-if P (ltb (length query) 12) _ _ (λ _. tt)
      (λ long.
        let enough = ltb-false→le (length query) 12 long in
        Returns->>= Anything P (parse_first_question query) _ (parse_first_question-Returns query)
          (λ (name, qtype) _.
            Returns->>= (IsInside 12 query) P (question_section_end query) _
              (question_section_end-Returns query)
              (λ q_end within.
                Returns->>= Anything P (index query 4) _ (index-Returns query 4 (omega arith))
                  (λ hi _.
                    Returns->>= Anything P (index query 5) _ (index-Returns query 5 (omega arith))
                      (λ lo _.
                        Returns->>= (λ r. r ≡ take 2 query) P (slice query 0 2) _
                          (slice-Returns query 0 2 (omega arith) (omega arith))
                          (λ id e.
                            Returns->>= (λ r. r ≡ take (q_end - 12) (drop 12 query)) P
                              (slice query 12 q_end) _
                              (slice-Returns query 12 q_end within.0 within.1)
                              (λ questions q.
                                response_parts query id questions _ hi lo _ enough e
                                  (rw q
                                    (omega (arith, length-take {0} (q_end - 12) (drop 12 query))))
                                  (answer_length qtype))))))))

into_buffer_le : (d : Bytes) → length (into_buffer d) ≤ max_packet
unfolding into_buffer
into_buffer_le d = take_le max_packet d
  where
    take_le : (n : ℕ) (xs : Bytes) → length (take n xs) ≤ n
    take_le n xs = omega (arith, length-take {0} n xs)

await_reply_lem :
    (query : Bytes) (ds : List Bytes) (r : Bytes)
    → await_reply query ds ≡ some r
    → EchoesId query r × (length r ≤ max_packet)
unfolding await_reply
await_reply_lem query [] r h = cc
await_reply_lem query (d ∷ ds) r h = ground (
  arith,
  await_reply_lem query ds r,
  text_eq_iff (take 2 (into_buffer d)) (take 2 query),
  into_buffer_le d,
)

forward_lem :
    (query : Bytes) (datagrams : Option (List Bytes)) (r : Bytes)
    → forward query datagrams ≡ some r
    → EchoesId query r × (length r ≤ max_packet)
unfolding forward
forward_lem query none r h = ground arith
forward_lem query (some ds) r h = ground (arith, await_reply_lem query ds r)

abbrev pub IsReply : Bytes → Bytes → Type 0
IsReply query r = EchoesId query r × ((length r ≤ length query + 16) ⊎ (length r ≤ max_packet))

module _ (to_lowercase : Text → Text) where
  matches_tld-Returns :
      (query : Bytes) (tlds : List Text) → Returns Anything (matches_tld to_lowercase query tlds)
  unfolding matches_tld
  matches_tld-Returns query tlds =
      below (parse_first_question query) (parse_first_question-Returns query)
    where
      below :
          (m : Exec (Text × ℕ))
          → Returns Anything m
          → Returns Anything (is_below to_lowercase tlds m)
      below (found _) h = tt
      below missing h = tt
      below panic h = h
      below out_of_fuel h = h

  -- For every packet, whatever the configured domains and the upstream's datagrams, the task comes
  -- to its end without a panic, and a packet that it sends has the id of the query and is no
  -- longer than the buffer, or than the query with one answer.
  pub respond-Returns :
      (tlds : List Text) (query : Bytes) (datagrams : Option (List Bytes))
      → Returns (IsReply query) (respond to_lowercase tlds query datagrams)
  unfolding respond
  respond-Returns tlds query datagrams =
      Returns->>= Anything (IsReply query) (matches_tld to_lowercase query tlds) _
        (matches_tld-Returns query tlds)
        (λ ours _.
          Returns-if (IsReply query) ours _ _
            (λ _. local (make_response query) (make_response-Returns query))
            (λ _. sent (forward query datagrams) (forward_lem query datagrams)))
    where
      local : (m : Exec Bytes) → Returns (IsLocal query) m → Returns (IsReply query) m
      local (found r) h = (h.0, inl h.1)
      local missing h = tt
      local panic h = h
      local out_of_fuel h = h

      sent :
          (o : Option Bytes)
          → ((r : Bytes) → o ≡ some r → EchoesId query r × (length r ≤ max_packet))
          → Returns (IsReply query) (elim o [ none ↦ missing | some r ↦ found r ])
      sent none h = tt
      sent (some r) h = ((h r refl).0, inr (h r refl).1)
