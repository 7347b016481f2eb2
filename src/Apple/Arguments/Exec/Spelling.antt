-- ===== src/Apple/Arguments/Exec/Spelling.antt =====
-- How the options of `exec` are written on the command line, and what they mean to Apple's tool.
use dip_rust.Base.{◌≡◌, List, [], ◌∷◌, ◌++◌, false}
use dip_rust.Text.{Text, codes, starts_with}

pub data Flag : Type 0 where
  short_interactive : Flag
  long_interactive : Flag
  short_tty : Flag
  long_tty : Flag
  interactive_tty : Flag
  tty_interactive : Flag

-- Options with a value behind them.
pub data Setting : Type 0 where
  short_env : Setting
  long_env : Setting
  env_file : Setting
  short_user : Setting
  long_user : Setting
  uid : Setting
  gid : Setting
  ulimit : Setting
  short_workdir : Setting
  long_workdir : Setting
  cwd : Setting

-- Options with a value behind an equals sign.
pub data Joined : Type 0 where
  joined_env : Joined
  joined_env_file : Joined
  joined_workdir : Joined
  joined_cwd : Joined

pub data ExecOption : Type 0 where
  flag : Flag → ExecOption
  setting : Setting → Text → ExecOption
  joined : Joined → Text → ExecOption

abbrev pub flag_text : Flag → Text
flag_text short_interactive = codes "-i"
flag_text long_interactive = codes "--interactive"
flag_text short_tty = codes "-t"
flag_text long_tty = codes "--tty"
flag_text interactive_tty = codes "-it"
flag_text tty_interactive = codes "-ti"

abbrev pub flag_meaning : Flag → List Text
flag_meaning short_interactive = codes "--interactive" ∷ []
flag_meaning long_interactive = codes "--interactive" ∷ []
flag_meaning short_tty = codes "--tty" ∷ []
flag_meaning long_tty = codes "--tty" ∷ []
flag_meaning interactive_tty = codes "--interactive" ∷ codes "--tty" ∷ []
flag_meaning tty_interactive = codes "--interactive" ∷ codes "--tty" ∷ []

abbrev pub setting_text : Setting → Text
setting_text short_env = codes "-e"
setting_text long_env = codes "--env"
setting_text env_file = codes "--env-file"
setting_text short_user = codes "-u"
setting_text long_user = codes "--user"
setting_text uid = codes "--uid"
setting_text gid = codes "--gid"
setting_text ulimit = codes "--ulimit"
setting_text short_workdir = codes "-w"
setting_text long_workdir = codes "--workdir"
setting_text cwd = codes "--cwd"

abbrev pub setting_meaning : Setting → Text
setting_meaning short_env = codes "--env"
setting_meaning long_env = codes "--env"
setting_meaning env_file = codes "--env-file"
setting_meaning short_user = codes "--user"
setting_meaning long_user = codes "--user"
setting_meaning uid = codes "--uid"
setting_meaning gid = codes "--gid"
setting_meaning ulimit = codes "--ulimit"
setting_meaning short_workdir = codes "--workdir"
setting_meaning long_workdir = codes "--workdir"
setting_meaning cwd = codes "--workdir"

abbrev pub joined_text : Joined → Text
joined_text joined_env = codes "--env="
joined_text joined_env_file = codes "--env-file="
joined_text joined_workdir = codes "--workdir="
joined_text joined_cwd = codes "--cwd="

abbrev pub joined_meaning : Joined → Text
joined_meaning joined_env = codes "--env"
joined_meaning joined_env_file = codes "--env-file"
joined_meaning joined_workdir = codes "--workdir"
joined_meaning joined_cwd = codes "--workdir"

-- The arguments that an option is, and what it becomes.
abbrev pub written : ExecOption → List Text
written (flag f) = flag_text f ∷ []
written (setting s value) = setting_text s ∷ value ∷ []
written (joined j value) = (joined_text j ++ value) ∷ []

abbrev pub meaning : ExecOption → List Text
meaning (flag f) = flag_meaning f
meaning (setting s value) = setting_meaning s ∷ value ∷ []
meaning (joined j value) = joined_meaning j ∷ value ∷ []

-- `trim_start_matches` takes a prefix off as often as it stands there.
abbrev pub IsOnce : ExecOption → Type 0
IsOnce (flag f) = Unit
IsOnce (setting s value) = Unit
IsOnce (joined j value) = starts_with (joined_text j) value ≡ false

abbrev pub all_written : List ExecOption → List Text
all_written [] = []
all_written (o ∷ options) = written o ++ all_written options

abbrev pub all_meanings : List ExecOption → List Text
all_meanings [] = []
all_meanings (o ∷ options) = meaning o ++ all_meanings options
