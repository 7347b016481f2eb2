-- ===== src/Apple/Arguments/Exec.antt =====
-- The arguments of `exec`: `parse_exec_service` and `exec_option_name`.
pub mod Spelling
pub mod Reading
use dip_rust.Base.{
  subst, some_inj, ℕ, zero, suc, ◌+◌, ◌≡◌, refl, sym, ap, ◌∙◌, Bool, ◌||◌, Option, none, some, List,
  [], ◌∷◌, ◌++◌, arith, if◌then◌else◌, length, get_elem?, any,
}
use dip_rust.Text.{Text, codes, text_eq, strip_prefix, starts_with, split_once}

pub record ExecParse : Type 0 where
  pub service : Text
  pub command_start : ℕ
  pub options : List Text

unfoldable pub exec_option_name : Text → Text
unfolding text_eq
exec_option_name arg =
    if text_eq arg (codes "-e")
    then codes "--env"
    else if text_eq arg (codes "-u")
    then codes "--user"
    else if text_eq arg (codes "-w") || text_eq arg (codes "--cwd")
    then codes "--workdir"
    else arg

-- `trim_start_matches(prefix)` for a prefix that is not empty; a unit of fuel for each time.
unfoldable pub strip_all : ℕ → Text → Text → Text
unfolding strip_prefix
strip_all zero prefix s = s
strip_all (suc n) prefix s = elim (strip_prefix prefix s) [
  | none ↦ s
  | some rest ↦ strip_all n prefix rest
]

-- An argument: options that stand for themselves, one with its value behind it, or the service.
pub data Argument : Type 0 where
  alone : List Text → Argument
  with_value : Text → Argument
  exec_service : Argument

abbrev pub is_one_of : Text → List Text → Bool
is_one_of arg names = any (λ name. text_eq arg name) names

abbrev pub behind_equals : Option (Text × Text) → Text
behind_equals none = []
behind_equals (some (name, value)) = value

unfoldable pub argument : Text → Argument
unfolding text_eq starts_with exec_option_name strip_all split_once
argument arg =
    if is_one_of arg (codes "-i" ∷ codes "--interactive" ∷ [])
    then alone (codes "--interactive" ∷ [])
    else if is_one_of arg (codes "-t" ∷ codes "--tty" ∷ [])
    then alone (codes "--tty" ∷ [])
    else if is_one_of arg (codes "-it" ∷ codes "-ti" ∷ [])
    then alone (codes "--interactive" ∷ codes "--tty" ∷ [])
    else if is_one_of arg (
        codes "-e"
        ∷ codes "--env"
        ∷ codes "--env-file"
        ∷ codes "-u"
        ∷ codes "--user"
        ∷ codes "--uid"
        ∷ codes "--gid"
        ∷ codes "--ulimit"
        ∷ codes "-w"
        ∷ codes "--workdir"
        ∷ codes "--cwd"
        ∷ [])
    then with_value (exec_option_name arg)
    else if starts_with (codes "--env=") arg
    then alone (codes "--env" ∷ strip_all (length arg) (codes "--env=") arg ∷ [])
    else if starts_with (codes "--env-file=") arg
    then alone (codes "--env-file" ∷ strip_all (length arg) (codes "--env-file=") arg ∷ [])
    else if starts_with (codes "--workdir=") arg || starts_with (codes "--cwd=") arg
    then alone (codes "--workdir" ∷ behind_equals (split_once b'=' arg) ∷ [])
    else if starts_with (codes "-") arg
    then alone []
    else exec_service

-- The loop from an index on, with the options so far, on what the next rounds do; a value that is
-- missing ends it without a service.
abbrev pub Round : Type 0
Round = ℕ → List Text → Option ExecParse

unfoldable pub exec_step : Argument → Text → Round → Option (Text × Round) → Round
exec_step (alone flags) arg next behind index options = next (suc index) (options ++ flags)
exec_step (with_value name) arg next none index options = none
exec_step (with_value name) arg next (some (value, after)) index options =
    after (index + 2) (options ++ name ∷ value ∷ [])
exec_step exec_service arg next behind index options =
    some (record { service = arg; command_start = suc index; options = options })

unfoldable pub exec_from : List Text → Round
unfolding exec_step argument
exec_from [] index options = none
exec_from (arg ∷ []) index options = exec_step (argument arg) arg (λ i o. none) none index options
exec_from (arg ∷ value ∷ args) index options =
    exec_step (argument arg) arg (exec_from (value ∷ args)) (some (value, exec_from args)) index
      options

unfoldable pub parse_exec_service : List Text → Option ExecParse
unfolding exec_from
parse_exec_service [] = none
parse_exec_service (command ∷ args) = exec_from args 1 []
