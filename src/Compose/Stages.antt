-- ===== src/Compose/Stages.antt =====
-- The build stages that a Dockerfile names: `dockerfile_stages`.
use dip_rust.Base.{ℕ, Bool, true, false, Option, none, some, List, [], ◌∷◌, ◌==◌, if◌then◌else◌}
use dip_rust.Text.{
  Text, codes, text_eq, starts_with, is_whitespace, trim_start_by, trim_end_by, trim_start,
  trim_char, lines, eq_ignore_ascii_case,
}
use dip_rust.Json.{text_lt}

-- `split_whitespace`.
abbrev pub cons_word : ℕ → Bool → List Text → List Text
cons_word c starts [] = (c ∷ []) ∷ []
cons_word c true words = (c ∷ []) ∷ words
cons_word c false (word ∷ words) = (c ∷ word) ∷ words

abbrev pub starts_space : Text → Bool
starts_space [] = true
starts_space (c ∷ s) = is_whitespace c

unfoldable pub split_whitespace : Text → List Text
unfolding is_whitespace
split_whitespace [] = []
split_whitespace (c ∷ s) =
    let words = split_whitespace s in
    if is_whitespace c then words else cons_word c (starts_space s) words

unfoldable pub strip_stage_quotes : Text → Text
unfolding trim_start_by trim_end_by
strip_stage_quotes stage = trim_end_by (λ c. c == b'\r') (trim_char b'\'' (trim_char b'"' stage))

-- The word behind the first `AS`.
unfoldable pub stage_after_as : List Text → Option Text
unfolding eq_ignore_ascii_case strip_stage_quotes
stage_after_as [] = none
stage_after_as (part ∷ []) = none
stage_after_as (part ∷ stage ∷ parts) =
    let later = stage_after_as (stage ∷ parts) in
    if eq_ignore_ascii_case part (codes "AS") then some (strip_stage_quotes stage) else later

unfoldable pub stage_of_words : List Text → Option Text
unfolding stage_after_as eq_ignore_ascii_case
stage_of_words [] = none
stage_of_words (first ∷ parts) =
    if eq_ignore_ascii_case first (codes "FROM") then stage_after_as parts else none

unfoldable pub stage_of_line : Text → Option Text
unfolding stage_of_words split_whitespace trim_start_by starts_with
stage_of_line line =
    if starts_with (codes "#") (trim_start line)
    then none
    else stage_of_words (split_whitespace (trim_start line))

-- `BTreeSet::insert`.
unfoldable pub insert_stage : Text → List Text → List Text
unfolding text_eq text_lt
insert_stage stage [] = stage ∷ []
insert_stage stage (s ∷ stages) =
    let later = insert_stage stage stages in
    if text_eq stage s
    then s ∷ stages
    else if text_lt stage s
    then stage ∷ s ∷ stages
    else s ∷ later

abbrev pub add_stage : Option Text → List Text → List Text
add_stage none stages = stages
add_stage (some stage) stages = insert_stage stage stages

unfoldable pub stages_onto : List Text → List Text → List Text
unfolding stage_of_line insert_stage
stages_onto stages [] = stages
stages_onto stages (line ∷ rest) = stages_onto (add_stage (stage_of_line line) stages) rest

unfoldable pub dockerfile_stages : Text → List Text
unfolding stages_onto
dockerfile_stages content = stages_onto [] (lines content)
