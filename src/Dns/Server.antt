-- ===== src/Dns/Server.antt =====
-- src/dns/server.rs: parsing the first question, the local answer, and the forwarding loop.
pub mod Safety
pub mod Query
pub mod Replies
pub mod Reply
mod Tests
use dip_rust.Base.{
  is_nil, subst, some_inj, ltb→lt, ltb-false→le, leb→le, ℕ, zero, suc, ◌+◌, ◌-◌, ◌*◌, ◌/◌, ◌%◌, ◌^◌,
  ◌≤◌, ◌<◌, min, ◌≡◌, refl, sym, ap, ◌∙◌, ◌≢◌, ◌↔◌, ◌⊎◌, inl, inr, Bool, true, false, not, ◌&&◌,
  ◌||◌, Option, none, some, List, [], ◌∷◌, ◌++◌, map, append_assoc, append-nil, arith, ltb, leb,
  ◌==◌, if◌then◌else◌, ==_iff, Bool-cases, &&-true, Option-cases, unwrap_or, or_else, is_some,
  length, get_elem?, take, drop, filter, any, find, Has, Has-append_left, Has-append_right, All,
  All-append, All-Has, All_of_Has, length-append, take-append-drop, take-length-append,
  drop-length-append, length-take, length-drop, get_elem?-lt,
}
use dip_rust.Dns.Exec.{Exec, found, missing, panic, out_of_fuel, ◌>>=◌, index, slice}
use dip_rust.Text.Utf8.{from_utf8}
use dip_rust.Text.{
  Text, codes, char_len, byte_len, text_eq, is_empty, strip_prefix, starts_with, ends_with,
  contains_char, contains, is_whitespace, trim_start_by, keep_unless, trim_end_by, trim_start,
  trim_end, trim, trim_char, split_once, cons_to_first, split, before, join, drop_cr, lines_from,
  lines, replace_char, ascii_lower, to_ascii_lowercase, eq_ignore_ascii_case,
}

abbrev pub Bytes : Type 0
Bytes = List ℕ

abbrev pub ttl : ℕ
ttl = 60

abbrev pub max_packet : ℕ
max_packet = 4096

-- `u16::from_be_bytes` and the `to_be_bytes` of u16 and u32.
abbrev pub from_be : ℕ → ℕ → ℕ
from_be hi lo = hi * 256 + lo

abbrev pub to_be16 : ℕ → Bytes
to_be16 n = n / 256 % 256 ∷ n % 256 ∷ []

abbrev pub to_be32 : ℕ → Bytes
to_be32 n = n / 256 ^ 3 % 256 ∷ n / 256 ^ 2 % 256 ∷ n / 256 % 256 ∷ n % 256 ∷ []

unfoldable pub read_label : Bytes → ℕ → ℕ → Exec Text
read_label bytes from len = do
  raw ← slice bytes from (from + len)
  elim (from_utf8 raw) [ none ↦ missing | some label ↦ found label ]

-- The name at a position and the position behind it; a compression pointer ends the name.
unfoldable pub read_name : ℕ → Bytes → ℕ → List Text → Exec (Text × ℕ)
read_name zero bytes pos labels = out_of_fuel
read_name (suc fuel) bytes pos labels = if leb (length bytes) pos then missing else do
  len ← index bytes pos
  if len == 0
      then found (join (codes ".") labels, pos + 1)
      else if leb 0xc0 len
      then found (join (codes ".") labels, pos + 2)
      else if ltb (length bytes) (pos + 1 + len)
      then missing
      else (read_label bytes (pos + 1) len >>= λ label.
          read_name fuel bytes (pos + 1 + len) (labels ++ label ∷ []))

-- The position behind a name.
unfoldable pub skip_name : ℕ → Bytes → ℕ → Exec ℕ
skip_name zero bytes pos = out_of_fuel
skip_name (suc fuel) bytes pos = if leb (length bytes) pos then missing else do
  len ← index bytes pos
  let rest = skip_name fuel bytes (pos + len + 1)
  if len == 0 then found (pos + 1) else if leb 0xc0 len then found (pos + 2) else rest

-- Each round of a name's loop moves the position on, so this is enough.
abbrev pub name_fuel : Bytes → ℕ
name_fuel bytes = suc (length bytes)

unfoldable pub parse_first_question : Bytes → Exec (Text × ℕ)
parse_first_question bytes = if ltb (length bytes) 12 then missing else do
  (name, pos) ← read_name (name_fuel bytes) bytes 12 []
  if ltb (length bytes) (pos + 2)
      then missing
      else do hi ← index bytes pos; lo ← index bytes (pos + 1); found (name, from_be hi lo)

-- `for _ in 0..qdcount`
unfoldable pub skip_questions : ℕ → Bytes → ℕ → Exec ℕ
skip_questions zero bytes pos = found pos
skip_questions (suc rounds) bytes pos = do
  after ← skip_name (name_fuel bytes) bytes pos
  if ltb (length bytes) (after + 4) then missing else skip_questions rounds bytes (after + 4)

unfoldable pub question_section_end : Bytes → Exec ℕ
question_section_end bytes =
    if ltb (length bytes) 12
    then missing
    else do hi ← index bytes 4; lo ← index bytes 5; skip_questions (from_be hi lo) bytes 12

-- The answer record of an A query: a pointer to the name at offset 12, type A, class IN, the time
-- to live, and 127.0.0.1.
abbrev pub answer_record : Bytes
answer_record =
    (0xc0 ∷ 0x0c ∷ [])
    ++ ((0x00 ∷ 0x01 ∷ [])
        ++ ((0x00 ∷ 0x01 ∷ []) ++ (to_be32 ttl ++ ((0x00 ∷ 0x04 ∷ []) ++ (127 ∷ 0 ∷ 0 ∷ 1 ∷ [])))))

unfoldable pub make_response : Bytes → Exec Bytes
make_response query = if ltb (length query) 12 then missing else do
  (_name, qtype) ← parse_first_question query
  q_end ← question_section_end query
  hi ← index query 4
  lo ← index query 5
  let answer_count = if qtype == 1 then 1 else 0
  id ← slice query 0 2
  questions ← slice query 12 q_end
  found (
      id
      ++ ((0x81 ∷ 0x80 ∷ [])
          ++ (to_be16 (from_be hi lo)
              ++ (to_be16 answer_count
                  ++ ((0x00 ∷ 0x00 ∷ [])
                      ++ ((0x00 ∷ 0x00 ∷ [])
                          ++ (questions ++ (if qtype == 1 then answer_record else []))))))))

-- The datagrams that arrive from the upstream before the deadline, one after the other; each is cut
-- to the buffer, and one that does not echo the transaction id is dropped.
unfoldable pub into_buffer : Bytes → Bytes
into_buffer datagram = take max_packet datagram

unfoldable pub await_reply : Bytes → List Bytes → Option Bytes
await_reply query [] = none
await_reply query (datagram ∷ rest) =
    let received = into_buffer datagram in
    if leb 2 (length received) && text_eq (take 2 received) (take 2 query)
    then some received
    else await_reply query rest

-- `none` for the datagrams: the upstream's address is wrong or the socket fails.
unfoldable pub forward : Bytes → Option (List Bytes) → Option Bytes
forward query datagrams =
    if ltb (length query) 12
    then none
    else elim datagrams [ none ↦ none | some ds ↦ await_reply query ds ]

module _ (to_lowercase : Text → Text) where
  -- Whether the name found is a configured domain or below one; no name is below none.
  unfoldable pub is_below : List Text → Exec (Text × ℕ) → Exec Bool
  is_below tlds (found (name, _)) = found (
      any (λ tld. text_eq (to_lowercase name) tld || ends_with (b'.' ∷ tld) (to_lowercase name))
        tlds)
  is_below tlds missing = found false
  is_below tlds panic = panic
  is_below tlds out_of_fuel = out_of_fuel

  unfoldable pub matches_tld : Bytes → List Text → Exec Bool
  unfolding is_below
  matches_tld bytes tlds = is_below tlds (parse_first_question bytes)

  -- What the task for one packet sends back, if anything.
  unfoldable pub respond : List Text → Bytes → Option (List Bytes) → Exec Bytes
  respond tlds query datagrams = do
    ours ← matches_tld query tlds
    if ours
        then make_response query
        else elim (forward query datagrams) [ none ↦ missing | some r ↦ found r ]
