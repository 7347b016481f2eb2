-- ===== src/Env/RoundTrip.antt =====
-- What the parser reads from an environment file with quoted values.
use dip_rust.Base.{
  subst, ℕ, ◌-◌, ◌≡◌, refl, sym, ap, ◌∙◌, inl, inr, true, false, Option, none, some, List, [], ◌∷◌,
  ◌++◌, map, append_assoc, append-nil, arith, ◌==◌, ==_iff, Bool-cases, length, take, All,
  length-append, take-length-append,
}
use dip_rust.Env.{
  parse_env_str, filter_map, collect_onto, parse_trimmed, unquote_by, strip_quotes, parse_env_line,
}
use dip_rust.Text.Affix.{strip_prefix-append, ends_with-append}
use dip_rust.Text.Lines.{lines-append}
use dip_rust.Text.Split.{split_once-append}
use dip_rust.Text.Trim.{trim_start_by-append, trim_end_by-append, trim_start_none, trim_end_none}
use dip_rust.Text.{
  Text, codes, strip_prefix, starts_with, contains_char, is_whitespace, trim_start_by, trim,
  split_once, lines_from, lines,
}

-- A name of a variable: a character that is no `#`, and behind it others; none is a space or `=`.
pub record IsKey (first : ℕ) (others : Text) : Type 0 where
  pub no_comment : (b'#' == first) ≡ false
  pub no_equals : contains_char b'=' (first ∷ others) ≡ false
  pub no_space : All (λ c. is_whitespace c ≡ false) (first ∷ others)

-- A double or a single quote.
pub data IsQuote : ℕ → Type 0 where
  double : IsQuote 34
  single : IsQuote 39

-- `KEY="value"`.
abbrev pub quoted_pair : (key : Text) (q : ℕ) (value : Text) → Text
quoted_pair key q value = key ++ (b'=' ∷ q ∷ (value ++ q ∷ []))

IsQuote-visible : {q : ℕ} → IsQuote q → is_whitespace q ≡ false
unfolding is_whitespace
IsQuote-visible double = refl
IsQuote-visible single = refl

IsQuote-no_return : {q : ℕ} → IsQuote q → (q == b'\r') ≡ false
IsQuote-no_return double = refl
IsQuote-no_return single = refl

take_all_but_last : (s : Text) (c : ℕ) → take (length (s ++ c ∷ []) - 1) (s ++ c ∷ []) ≡ s
take_all_but_last s c =
    rw (length-append {0} s (c ∷ []))
      (ap (λ n. take n (s ++ c ∷ [])) (omega arith) ∙ take-length-append s (c ∷ []))

unquote_by_quoted : (q : ℕ) (value : Text) → unquote_by q (value ++ q ∷ []) ≡ value
unfolding unquote_by
unquote_by_quoted q value = rw (ends_with-append value (q ∷ []), take_all_but_last value q)

strip_quotes_quoted :
    {q : ℕ} → IsQuote q → (value : Text) → strip_quotes (q ∷ (value ++ q ∷ [])) ≡ value
unfolding strip_quotes
strip_quotes_quoted double [] = unquote_by_quoted b'"' []
strip_quotes_quoted double (c ∷ value) = unquote_by_quoted b'"' (c ∷ value)
strip_quotes_quoted single [] = unquote_by_quoted b'\'' []
strip_quotes_quoted single (c ∷ value) = unquote_by_quoted b'\'' (c ∷ value)

pub not_space : (c : ℕ) → is_whitespace c ≡ false → (b' ' == c) ≡ false
unfolding is_whitespace
not_space c h = elim (Bool-cases (b' ' == c)) [
  | inl t ↦ cc (rw (sym ((==_iff b' ' c).0 t)) at h)
  | inr f ↦ f
]

pub strip_export_none :
    (prefix key rest : Text)
    → contains_char b' ' prefix ≡ true
    → contains_char b'=' prefix ≡ false
    → All (λ c. is_whitespace c ≡ false) key
    → strip_prefix prefix (key ++ (b'=' ∷ rest)) ≡ none
unfolding strip_prefix contains_char
strip_export_none [] key rest h e k = cc
strip_export_none (p ∷ prefix) [] rest h e k = ground arith
strip_export_none (p ∷ prefix) (c ∷ key) rest h e (v, k) = elim (Bool-cases (p == c)) [
  | inr f ↦ rw f
  | inl t ↦ rw (
    t,
    strip_export_none prefix key rest (ground (arith, (==_iff p c).0 t, not_space c v))
        (ground arith) k,
  )
]

trim_padded :
    (left : Text) (first : ℕ) (mid : Text) (last : ℕ) (right : Text)
    → All (λ c. is_whitespace c ≡ true) left
    → is_whitespace first ≡ false
    → is_whitespace last ≡ false
    → All (λ c. is_whitespace c ≡ true) right
    → trim (left ++ ((first ∷ mid) ++ (last ∷ right))) ≡ (first ∷ mid) ++ (last ∷ [])
unfolding trim_start_by
trim_padded left first mid last right l f e r = rw (
  trim_start_by-append is_whitespace left ((first ∷ mid) ++ (last ∷ right)) l,
  f,
  trim_end_by-append is_whitespace (first ∷ mid) last right e r,
)

trim_quoted :
    {q : ℕ} → IsQuote q → (value : Text) → trim (q ∷ (value ++ q ∷ [])) ≡ q ∷ (value ++ q ∷ [])
trim_quoted {q} k value = trim_padded [] q value q [] tt (IsQuote-visible k) (IsQuote-visible k) tt

module _ (first : ℕ) (others : Text) (key : IsKey first others) {q : ℕ} (quote : IsQuote q)
    (value : Text) where
  pair_read :
      elim (split_once b'=' (quoted_pair (first ∷ others) q value)) as (λ _. Option (Text × Text)) [
        | none ↦ none
        | some (k, v) ↦ some (trim k, strip_quotes (trim v))
      ]
      ≡ some (first ∷ others, value)
  pair_read = rw (
    split_once-append b'=' (first ∷ others) (q ∷ (value ++ q ∷ [])) key.no_equals,
    trim_start_none (first ∷ others) key.no_space,
    trim_end_none (first ∷ others) key.no_space,
    trim_quoted quote value,
    strip_quotes_quoted quote value,
  )

  parse_trimmed_plain :
      parse_trimmed (quoted_pair (first ∷ others) q value) ≡ some (first ∷ others, value)
  unfolding parse_trimmed starts_with contains_char
  parse_trimmed_plain =
      rw
        (
          key.no_comment,
          strip_export_none (codes "export ") (first ∷ others) (q ∷ (value ++ q ∷ [])) refl refl
              key.no_space,
        )
        pair_read

  parse_trimmed_export :
      parse_trimmed (codes "export " ++ quoted_pair (first ∷ others) q value)
      ≡ some (first ∷ others, value)
  unfolding parse_trimmed starts_with
  parse_trimmed_export =
      rw (strip_prefix-append (codes "export ") (quoted_pair (first ∷ others) q value)) pair_read

quoted_pair_shape :
    (key : Text) (q : ℕ) (value rest : Text)
    → quoted_pair key q value ++ rest ≡ (key ++ (b'=' ∷ q ∷ value)) ++ (q ∷ rest)
quoted_pair_shape key q value rest =
    append_assoc key (b'=' ∷ q ∷ (value ++ q ∷ [])) rest
    ∙ ap (λ v. key ++ (b'=' ∷ q ∷ v)) (append_assoc value (q ∷ []) rest)
    ∙ sym (append_assoc key (b'=' ∷ q ∷ value) (q ∷ rest))

-- A line that sets a key to a quoted value, with or without `export` and with spaces on both sides,
-- gives the key and the value, whatever quotes, spaces, `=` or `#` the value holds.
pub parse_env_line_lem :
    (first : ℕ) (others : Text)
    → IsKey first others
    → {q : ℕ} → IsQuote q
    → (value left right : Text) → All (λ c. is_whitespace c ≡ true) left
    → All (λ c. is_whitespace c ≡ true) right
    → (parse_env_line (left ++ (quoted_pair (first ∷ others) q value ++ right))
        ≡ some (first ∷ others, value))
      × (parse_env_line
            (left ++ (codes "export " ++ (quoted_pair (first ∷ others) q value ++ right)))
          ≡ some (first ∷ others, value))
unfolding parse_env_line
parse_env_line_lem first others key {q} quote value left right l r = (
  ap parse_trimmed (
        ap (λ s. trim (left ++ s)) (quoted_pair_shape (first ∷ others) q value right)
        ∙ trim_padded left first (others ++ (b'=' ∷ q ∷ value)) q right l key.no_space.0
            (IsQuote-visible quote) r
        ∙ append_assoc (first ∷ others) (b'=' ∷ q ∷ value) (q ∷ []))
      ∙ parse_trimmed_plain first others key quote value,
  ap parse_trimmed (
        ap (λ s. trim (left ++ (codes "export " ++ s)))
          (quoted_pair_shape (first ∷ others) q value right)
        ∙ trim_padded left b'e' (codes "xport " ++ ((first ∷ others) ++ (b'=' ∷ q ∷ value))) q right
            l (unfold is_whitespace in refl) (IsQuote-visible quote) r
        ∙ ap (λ s. codes "export " ++ s)
            (append_assoc (first ∷ others) (b'=' ∷ q ∷ value) (q ∷ [])))
      ∙ parse_trimmed_export first others key quote value,
)

-- An assignment of a file: a key, its quote, and a value.
pub record Assignment : Type 0 where
  pub first : ℕ
  pub others : Text
  pub mark : ℕ
  pub value : Text

abbrev pub pair_of : Assignment → Text × Text
pair_of a = (a.first ∷ a.others, a.value)

-- The key is a name, the quote is one, and the line has no line feed.
abbrev pub IsAssignment : Assignment → Type 0
IsAssignment a =
    IsKey a.first a.others
    × IsQuote a.mark
    × (contains_char b'\n' (quoted_pair (a.first ∷ a.others) a.mark a.value) ≡ false)

-- The file with a line for each assignment.
unfoldable pub env_file : List Assignment → Text
env_file [] = []
env_file (a ∷ assignments) =
    quoted_pair (a.first ∷ a.others) a.mark a.value ++ (b'\n' ∷ env_file assignments)

lines_of_pair :
    (key : Text) {q : ℕ}
    → IsQuote q
    → (value s : Text) → contains_char b'\n' (quoted_pair key q value) ≡ false
    → lines (quoted_pair key q value ++ (b'\n' ∷ s)) ≡ quoted_pair key q value ∷ lines s
lines_of_pair key {q} quote value s =
    subst (λ p. contains_char b'\n' p ≡ false → lines (p ++ (b'\n' ∷ s)) ≡ p ∷ lines s)
      (append_assoc key (b'=' ∷ q ∷ value) (q ∷ []))
      (λ h. lines-append (key ++ (b'=' ∷ q ∷ value)) q s h (IsQuote-no_return quote))

pub filter_map-some :
    {A B : Type 0} (f : A → Option B) (x : A) (xs : List A) {y : B}
    → f x ≡ some y
    → filter_map f (x ∷ xs) ≡ y ∷ filter_map f xs
unfolding filter_map
filter_map-some {A} {B} f x xs {y} h =
    ap (λ o. elim o as (λ _. List B) [ none ↦ filter_map f xs | some z ↦ z ∷ filter_map f xs ]) h

lines-env_file :
    (assignments : List Assignment)
    → All IsAssignment assignments
    → filter_map parse_env_line (lines (env_file assignments)) ≡ map pair_of assignments
unfolding env_file filter_map
lines-env_file [] h = unfold lines_from in refl
lines-env_file (a ∷ assignments) ((key, quote, one_line), h) =
    ap (filter_map parse_env_line)
      (lines_of_pair (a.first ∷ a.others) quote a.value (env_file assignments) one_line)
    ∙ filter_map-some parse_env_line _ _ (
        ap parse_env_line (sym (append-nil (quoted_pair (a.first ∷ a.others) a.mark a.value)))
        ∙ (parse_env_line_lem a.first a.others key quote a.value [] [] tt tt).0)
    ∙ ap (λ ps. pair_of a ∷ ps) (lines-env_file assignments h)

-- A file of assignments is read as the map that the assignments make when they are done one after
-- the other.
pub parse_env_str_lem :
    (assignments : List Assignment)
    → All IsAssignment assignments
    → parse_env_str (env_file assignments) ≡ collect_onto [] (map pair_of assignments)
unfolding parse_env_str
parse_env_str_lem assignments h = ap (collect_onto []) (lines-env_file assignments h)
