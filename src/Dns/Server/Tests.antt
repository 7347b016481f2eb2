-- ===== src/Dns/Server/Tests.antt =====
-- The DNS server at concrete packets.
use dip_rust.Base.{
  ◌≡◌, refl, ap, ◌≢◌, inl, inr, Option, none, some, List, [], ◌∷◌, ◌++◌, arith, Has, All,
}
use dip_rust.Dns.Exec.{Exec, found, missing, Returns}
use dip_rust.Dns.Server.Replies.{sent_back, Picked}
use dip_rust.Dns.Server.Query.{IsLabel, one_question}
use dip_rust.Dns.Server.Reply.{
  parse_first_question_lem, local_answer, make_response_lem, respond_local, respond_foreign,
}
use dip_rust.Dns.Server.Safety.{IsReply, respond-Returns}
use dip_rust.Dns.Server.{Bytes, from_be, make_response, parse_first_question, respond}
use dip_rust.Text.Affix.{ends_with-append}
use dip_rust.Text.{
  Text, codes, char_len, byte_len, text_eq, is_empty, strip_prefix, starts_with, ends_with,
  contains_char, contains, is_whitespace, trim_start_by, keep_unless, trim_end_by, trim_start,
  trim_end, trim, trim_char, split_once, cons_to_first, split, before, join, drop_cr, lines_from,
  lines, replace_char, ascii_lower, to_ascii_lowercase, eq_ignore_ascii_case,
}

abbrev name : List Text
name = codes "App" ∷ codes "test" ∷ []

name_IsLabel : All IsLabel name
name_IsLabel = (
  record { nonempty = omega arith; short = omega arith; ascii = omega arith },
  (record { nonempty = omega arith; short = omega arith; ascii = omega arith }, tt),
)

-- An A query for `App.test`, cut short by one byte.
abbrev truncated : Bytes
truncated =
    0xab ∷ 0xcd ∷ 1 ∷ 0 ∷ 0 ∷ 1 ∷ 0 ∷ 0 ∷ 0 ∷ 0 ∷ 0 ∷ 0 ∷ 3 ∷ b'A' ∷ b'p' ∷ b'p' ∷ 4 ∷ b't' ∷ b'e'
    ∷ b's' ∷ b't' ∷ 0 ∷ 0 ∷ 1 ∷ 0 ∷ []

truncated_missing : make_response truncated ≡ missing
unfolding make_response parse_first_question dip_rust.Dns.Server.read_name dip_rust.Dns.Exec.index
    dip_rust.Dns.Server.read_label dip_rust.Dns.Exec.slice dip_rust.Text.Utf8.from_utf8
    dip_rust.Dns.Server.question_section_end dip_rust.Dns.Server.skip_questions
    dip_rust.Dns.Server.skip_name
truncated_missing = refl

-- With no question in it a packet is answered by a record whose name points to itself.
pointer_to_itself :
    make_response (0xab ∷ 0xcd ∷ 1 ∷ 0 ∷ 0 ∷ 0 ∷ 0 ∷ 0 ∷ 0 ∷ 0 ∷ 0 ∷ 0 ∷ 0 ∷ 0 ∷ 1 ∷ [])
    ≡ found (
        0xab ∷ 0xcd ∷ 0x81 ∷ 0x80 ∷ 0 ∷ 0 ∷ 0 ∷ 1 ∷ 0 ∷ 0 ∷ 0 ∷ 0 ∷ 0xc0 ∷ 0x0c ∷ 0 ∷ 1 ∷ 0 ∷ 1 ∷ 0
        ∷ 0 ∷ 0 ∷ 60 ∷ 0 ∷ 4 ∷ 127 ∷ 0 ∷ 0 ∷ 1 ∷ [])
unfolding make_response parse_first_question dip_rust.Dns.Server.read_name dip_rust.Dns.Exec.index
    dip_rust.Dns.Server.question_section_end dip_rust.Dns.Server.skip_questions
    dip_rust.Dns.Exec.slice
pointer_to_itself = refl

respond-Returns_example :
    Returns (IsReply truncated) (respond to_ascii_lowercase (codes "test" ∷ []) truncated none)
respond-Returns_example = respond-Returns to_ascii_lowercase (codes "test" ∷ []) truncated none

-- An OPT record, as a resolver adds it, and the counts that announce it.
abbrev counts : Bytes
counts = 0 ∷ 0 ∷ 0 ∷ 0 ∷ 0 ∷ 1 ∷ []

abbrev opt : Bytes
opt = 0 ∷ 0 ∷ 41 ∷ 16 ∷ 0 ∷ 0 ∷ 0 ∷ 0 ∷ 0 ∷ 0 ∷ 0 ∷ []

parse_first_question_lem_example :
    parse_first_question (one_question 0xab 0xcd 1 0 counts name 0 28 0 1 opt)
    ≡ found (join (codes ".") name, from_be 0 28)
parse_first_question_lem_example =
    parse_first_question_lem 0xab 0xcd 1 0 counts name 0 28 0 1 opt refl name_IsLabel

make_response_lem_example :
    make_response (one_question 0xab 0xcd 1 0 counts name 0 1 0 1 opt)
    ≡ found (local_answer 0xab 0xcd 1 0 counts name 0 1 0 1 opt refl name_IsLabel)
make_response_lem_example =
    make_response_lem 0xab 0xcd 1 0 counts name 0 1 0 1 opt refl name_IsLabel

respond_local_example :
    respond to_ascii_lowercase
      (codes "test" ∷ [])
      (one_question 0xab 0xcd 1 0 counts name 0 1 0 1 opt)
      none
    ≡ found (local_answer 0xab 0xcd 1 0 counts name 0 1 0 1 opt refl name_IsLabel)
unfolding join
respond_local_example =
    respond_local 0xab 0xcd 1 0 counts name 0 1 0 1 opt refl name_IsLabel to_ascii_lowercase
      (codes "test" ∷ []) none (codes "test") (codes "app") (inl refl) (inr refl)

-- The name is not below the configured domain.
not_below_dev :
    (tld : Text)
    → Has tld (codes "dev" ∷ [])
    → (to_ascii_lowercase (join (codes ".") name) ≢ tld)
      × ((pre : Text) → to_ascii_lowercase (join (codes ".") name) ≢ pre ++ (b'.' ∷ tld))
unfolding join text_eq ends_with
not_below_dev tld m = elim m [
  | inr none_left ↦ absurd none_left
  | inl e ↦ rw e (
    λ h. cc (ap (text_eq (codes "app.test")) h),
    λ pre h. cc (ap (ends_with (codes ".dev")) h, ends_with-append pre (codes ".dev")),
  )
]

abbrev query : Bytes
query = one_question 0xab 0xcd 1 0 counts name 0 1 0 1 opt

abbrev datagrams : List Bytes
datagrams = (0xab ∷ 0 ∷ 9 ∷ []) ∷ (0xab ∷ 0xcd ∷ 7 ∷ []) ∷ []

respond_foreign_example :
    (respond to_ascii_lowercase (codes "dev" ∷ []) query none ≡ missing)
    × ((reply : Option Bytes) × (respond to_ascii_lowercase
            (codes "dev" ∷ [])
            query
            (some datagrams)
          ≡ sent_back reply)
        × Picked query datagrams reply)
respond_foreign_example =
    respond_foreign 0xab 0xcd 1 0 counts name 0 1 0 1 opt refl name_IsLabel to_ascii_lowercase
      (codes "dev" ∷ []) not_below_dev datagrams
