-- ===== src/Yaml/Flow.antt =====
-- Flow collections: the struct `FlowParser`. Its position is the text that is left; a call that
-- is not on a part of its text costs a unit of fuel. At the bracket that closes a collection behind
-- an item, the source goes round its loop once more and returns there; here it returns at once.
pub mod Tokens
pub mod Ending
use dip_rust.Base.{
  length-map, ℤ, pos, negsuc, any_of_Has, any_sound, le→ltb-false, is_nil, subst, some_inj, ltb→lt,
  ltb-false→le, leb→le, ℕ, zero, suc, ◌+◌, ◌-◌, ◌*◌, ◌/◌, ◌%◌, ◌^◌, ◌≤◌, ◌<◌, min, ◌≡◌, refl, sym,
  ap, ◌∙◌, ◌≢◌, ◌↔◌, ◌⊎◌, inl, inr, Bool, true, false, not, ◌&&◌, ◌||◌, Option, none, some, List,
  [], ◌∷◌, ◌++◌, map, append_assoc, append-nil, arith, ltb, leb, ◌==◌, if◌then◌else◌, ==_iff,
  Bool-cases, &&-true, Option-cases, unwrap_or, or_else, is_some, length, get_elem?, take, drop,
  filter, any, find, Has, Has-append_left, Has-append_right, All, All-append, All-Has, All_of_Has,
  length-append, take-append-drop, take-length-append, drop-length-append, length-take, length-drop,
  get_elem?-lt,
}
use dip_rust.Text.{
  Text, codes, char_len, byte_len, text_eq, is_empty, strip_prefix, starts_with, ends_with,
  contains_char, contains, is_whitespace, trim_start_by, keep_unless, trim_end_by, trim_start,
  trim_end, trim, trim_char, split_once, cons_to_first, split, before, join, drop_cr, lines_from,
  lines, replace_char, ascii_lower, to_ascii_lowercase, eq_ignore_ascii_case,
}
use dip_rust.Json.{
  Value, Items, Fields, null, string, array, object, no_items, item, no_fields, insert,
}
use dip_rust.Yaml.Result.{Result, ok, failed, out_of_fuel, ◌>>=◌}
use dip_rust.Yaml.Scan.{cons_token, take_quoted, is_quote}
use dip_rust.Yaml.Scalar.{plain_scalar}

-- What the reader takes from the libraries: the texts that `parse::<f64>()` reads as a finite
-- number, and how a value and a next character are shown in a message.
pub record External : Type 0 where
  pub is_f64 : Text → Bool
  pub display : Value → Text
  pub debug : Option ℕ → Text

-- The map of anchors; an entry hides the later ones of its name.
abbrev pub Anchors : Type 0
Anchors = List (Text × Value)

unfoldable pub anchor : Text → Anchors → Option Value
anchor name [] = none
anchor name ((n, v) ∷ anchors) = if text_eq name n then some v else anchor name anchors

unfoldable pub alias_value : ℕ → Text → Text → Anchors → Result Value
unfolding anchor
alias_value line_no message name anchors = elim (anchor name anchors) [
  | some v ↦ ok v
  | none ↦ failed line_no message
]

abbrev pub skip_spaces : Text → Text
skip_spaces = trim_start_by (λ c. c == b' ')

-- A `:` ends a plain token only before a space, the end or a flow character.
abbrev pub ends_key : Text → Bool
ends_key [] = true
ends_key (n ∷ s) = n == b' ' || n == b',' || n == b']' || n == b'}'

abbrev pub ends_token : ℕ → Text → Bool
ends_token c s = c == b',' || c == b']' || c == b'}' || (c == b':' && ends_key s)

unfoldable pub take_plain_token : Text → Text × Text
take_plain_token [] = ([], [])
take_plain_token (c ∷ s) =
    let later = take_plain_token s in if ends_token c s then ([], c ∷ s) else cons_token c later

-- The first character of a value.
pub data Opening : Type 0 where
  sequence : Opening
  mapping : Opening
  quoted : Opening
  alias : Opening
  plain : Opening

unfoldable pub opening : ℕ → Opening
opening c =
    if c == b'['
    then sequence
    else if c == b'{'
    then mapping
    else if is_quote c
    then quoted
    else if c == b'*'
    then alias
    else plain

-- What follows an item: a comma, the closing bracket, or anything else.
pub data Next : Type 0 where
  more : Next
  close : Next
  other : Next

unfoldable pub next : ℕ → ℕ → Next
next bracket c = if c == b',' then more else if c == bracket then close else other

unfoldable pub flow_key : ℕ → Text → Result (Text × Text)
unfolding take_quoted take_plain_token
flow_key line_no [] = ok ([], [])
flow_key line_no (c ∷ s) =
    if is_quote c
    then take_quoted line_no (c ∷ s)
    else ok (trim (take_plain_token (c ∷ s)).0, (take_plain_token (c ∷ s)).1)

abbrev pub string_token : Text × Text → Value × Text
string_token (s, rest) = (string s, rest)

abbrev pub in_array : Items × Text → Value × Text
in_array (items, rest) = (array items, rest)

abbrev pub in_object : Fields × Text → Value × Text
in_object (known, rest) = (object known, rest)

abbrev pub with_item : Value → Items × Text → Items × Text
with_item v (items, rest) = (item v items, rest)

abbrev pub no_colon : ℕ → Text → Result (Fields × Text)
no_colon line_no key =
    failed line_no (codes "expected ':' after flow mapping key '" ++ (key ++ codes "'"))

module _ (ext : External) (line_no : ℕ) (anchors : Anchors) where
  unfoldable pub plain_token : Text × Text → Value × Text
  unfolding plain_scalar
  plain_token (token, rest) = (plain_scalar (External.is_f64 ext) (trim token), rest)

  unfoldable pub flow_alias : Text × Text → Result (Value × Text)
  unfolding alias_value
  flow_alias (name, rest) =
      alias_value line_no (codes "unknown anchor '" ++ (trim name ++ codes "'")) (trim name) anchors
      >>= λ v. ok (v, rest)

  -- The parts of `parse_value`, `parse_seq` and `parse_map`, on what the next calls do.
  module _ (seq : Text → Result (Items × Text)) (entries : Text → Result (Fields × Text)) where
    unfoldable pub value_open : Opening → ℕ → Text → Result (Value × Text)
    unfolding take_quoted plain_scalar flow_alias take_plain_token
    value_open sequence c s = seq s >>= λ r. ok (in_array r)
    value_open mapping c s = entries s >>= λ r. ok (in_object r)
    value_open quoted c s = take_quoted line_no (c ∷ s) >>= λ r. ok (string_token r)
    value_open alias c s = flow_alias (take_plain_token s)
    value_open plain c s = ok (plain_token (take_plain_token (c ∷ s)))

    unfoldable pub value_at : Text → Result (Value × Text)
    unfolding value_open opening
    value_at [] = failed line_no (codes "unexpected end of flow collection")
    value_at (c ∷ s) = value_open (opening c) c s

  module _ (value : Text → Result (Value × Text)) where
    unfoldable pub seq_go :
        (Text → Result (Items × Text)) → Value → Next → ℕ → Text → Result (Items × Text)
    seq_go seq v more c s = seq s >>= λ r. ok (with_item v r)
    seq_go seq v close c s = ok (item v no_items, s)
    seq_go seq v other c s =
        failed line_no (codes "expected ',' or ']', got " ++ External.debug ext (some c))

    unfoldable pub seq_next : (Text → Result (Items × Text)) → Value → Text → Result (Items × Text)
    unfolding seq_go next
    seq_next seq v [] =
        failed line_no (codes "expected ',' or ']', got " ++ External.debug ext none)
    seq_next seq v (c ∷ s) = seq_go seq v (next b']' c) c s

    unfoldable pub seq_item :
        (Text → Result (Items × Text)) → (closed : Bool) → ℕ → Text → Result (Items × Text)
    unfolding seq_next
    seq_item seq true c s = ok (no_items, s)
    seq_item seq false c s = value (c ∷ s) >>= λ r. seq_next seq r.0 (skip_spaces r.1)

    unfoldable pub seq_at : (Text → Result (Items × Text)) → Text → Result (Items × Text)
    unfolding seq_item
    seq_at seq [] = failed line_no (codes "unterminated flow sequence")
    seq_at seq (c ∷ s) = seq_item seq (c == b']') c s

    module _ (entries : Fields → Text → Result (Fields × Text)) where
      unfoldable pub map_go : Fields → Next → ℕ → Text → Result (Fields × Text)
      map_go known more c s = entries known s
      map_go known close c s = ok (known, s)
      map_go known other c s =
          failed line_no (codes "expected ',' or '}', got " ++ External.debug ext (some c))

      unfoldable pub map_next : Fields → Text → Result (Fields × Text)
      unfolding map_go next
      map_next known [] =
          failed line_no (codes "expected ',' or '}', got " ++ External.debug ext none)
      map_next known (c ∷ s) = map_go known (next b'}' c) c s

      unfoldable pub map_value : Fields → Text → (colon : Bool) → Text → Result (Fields × Text)
      unfolding map_next insert
      map_value known key false s = no_colon line_no key
      map_value known key true s =
          value s >>= λ r. map_next (insert key r.0 known) (skip_spaces r.1)

      unfoldable pub map_colon : Fields → Text → Text → Result (Fields × Text)
      unfolding map_value
      map_colon known key [] = no_colon line_no key
      map_colon known key (c ∷ s) = map_value known key (c == b':') s

      unfoldable pub map_key : Fields → (closed : Bool) → ℕ → Text → Result (Fields × Text)
      unfolding map_colon flow_key
      map_key known true c s = ok (known, s)
      map_key known false c s =
          flow_key line_no (c ∷ s) >>= λ r. map_colon known r.0 (skip_spaces r.1)

      unfoldable pub map_at : Fields → Text → Result (Fields × Text)
      unfolding map_key
      map_at known [] = failed line_no (codes "unterminated flow mapping")
      map_at known (c ∷ s) = map_key known (c == b'}') c s

  unfoldable mutual
    pub parse_value : ℕ → Text → Result (Value × Text)
    parse_value zero s = out_of_fuel
    parse_value (suc n) s = value_at (parse_seq n) (parse_map n no_fields) (skip_spaces s)

    pub parse_seq : ℕ → Text → Result (Items × Text)
    parse_seq zero s = out_of_fuel
    parse_seq (suc n) s = seq_at (parse_value n) (parse_seq n) (skip_spaces s)

    pub parse_map : ℕ → Fields → Text → Result (Fields × Text)
    parse_map zero known s = out_of_fuel
    parse_map (suc n) known s = map_at (parse_value n) (parse_map n) known (skip_spaces s)

-- `2 * length s + 1` units are enough.
unfoldable pub flow_value : External → ℕ → Anchors → Text → Result (Value × Text)
unfolding parse_value
flow_value ext line_no anchors s = parse_value ext line_no anchors (2 * length s + 1) s
