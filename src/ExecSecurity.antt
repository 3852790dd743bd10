-- ===== src/ExecSecurity.antt =====
-- exec_security.go: the filter on environment variables, and the detection of commands that run
-- code. The log lines are left out. strings.ToUpper maps an ASCII string byte by byte; its table
-- for other runes is the parameter `unicode`.
pub mod Environment
pub mod Commands
pub mod Examples
use reglet_hostlib.Base.{
  ℕ, ◌-◌, Bool, true, false, ◌&&◌, ◌||◌, not, Option, none, some, List, [], ◌∷◌, ◌++◌, map, ltb,
  leb, any, if◌then◌else◌,
}
use reglet_hostlib.Base.Text.{Str, codes, text_eq, one_of, has_prefix, cut, cut_last, trim_space}
use reglet_hostlib.Base.Map.{Map, lookup}

abbrev pub blocked_prefixes : List Str
blocked_prefixes = codes "LD_" ∷ codes "DYLD_" ∷ []

abbrev pub blocked_names : List Str
blocked_names = codes "IFS" ∷ codes "LOCPATH" ∷ codes "BASH_ENV" ∷ codes "ENV" ∷ []

abbrev pub gated_names : List Str
gated_names =
    codes "PATH"
    ∷ codes "HOME"
    ∷ codes "PYTHONPATH"
    ∷ codes "PYTHONSTARTUP"
    ∷ codes "PYTHONHOME"
    ∷ codes "NODE_OPTIONS"
    ∷ codes "NODE_PATH"
    ∷ codes "RUBYLIB"
    ∷ codes "PERL5LIB"
    ∷ codes "LUA_PATH"
    ∷ codes "LUA_CPATH"
    ∷ codes "CDPATH"
    ∷ codes "PS4"
    ∷ []

-- strings.ToUpper
abbrev pub upper_byte : ℕ → ℕ
upper_byte c = if leb b'a' c && leb c b'z' then c - 32 else c

unfoldable pub to_upper : (Str → Str) → Str → Str
unfolding any
to_upper unicode s = if any (λ c. not (ltb c 128)) s then unicode s else map upper_byte s

-- IsAlwaysBlockedEnv
unfoldable pub is_always_blocked_env : Str → Bool
is_always_blocked_env key = any (has_prefix key) blocked_prefixes || one_of blocked_names key

-- A capability getter, for one plugin or of any; `none` is the nil function. What it answers is taken not to change
-- during one call of SanitizeEnv.
abbrev pub CapabilityGetter : Type 0
CapabilityGetter = Str → Str → Bool

-- capGetter != nil && capGetter(pluginName, "env:"+upperKey)
abbrev pub has_capability : Option CapabilityGetter → Str → Str → Bool
has_capability none plugin key = false
has_capability (some getter) plugin key = getter plugin (codes "env:" ++ key)

-- One round of the loop: whether the variable is kept.
abbrev pub keeps_key : Option CapabilityGetter → Str → Str → Bool
keeps_key getter plugin key =
    not (is_always_blocked_env key)
    && (not (one_of gated_names key) || has_capability getter plugin key)

unfoldable pub keeps_env : (Str → Str) → Option CapabilityGetter → Str → Str → Bool
keeps_env unicode getter plugin e = elim (cut b'=' e) [
  | none ↦ false
  | some (key, value) ↦ keeps_key getter plugin (to_upper unicode key)
]

-- SanitizeEnv
unfoldable pub sanitize_env : (Str → Str) → Option CapabilityGetter → Str → List Str → List Str
unfolding keeps_env
sanitize_env unicode getter plugin [] = []
sanitize_env unicode getter plugin (e ∷ env) =
    let rest = sanitize_env unicode getter plugin env in
    if keeps_env unicode getter plugin e then e ∷ rest else rest

pub data ExecutionType : Type 0 where
  safe shell interpreter suspicious : ExecutionType

abbrev basename_of : Str → Option (Str × Str) → Str
basename_of command none = command
basename_of command (some (before, after)) = after

-- getBasename
unfoldable pub get_basename : Str → Str
get_basename command = basename_of command (cut_last b'/' command)

abbrev pub shells : List Str
shells =
    codes "sh"
    ∷ codes "bash"
    ∷ codes "dash"
    ∷ codes "zsh"
    ∷ codes "ksh"
    ∷ codes "csh"
    ∷ codes "tcsh"
    ∷ codes "fish"
    ∷ []

unfoldable pub is_shell_execution : Str → Bool
is_shell_execution command = one_of shells (get_basename command)

abbrev pub interpreters : List Str
interpreters =
    codes "python"
    ∷ codes "python2"
    ∷ codes "python3"
    ∷ codes "python2.7"
    ∷ codes "python3.6"
    ∷ codes "python3.7"
    ∷ codes "python3.8"
    ∷ codes "python3.9"
    ∷ codes "python3.10"
    ∷ codes "python3.11"
    ∷ codes "python3.12"
    ∷ codes "perl"
    ∷ codes "perl5"
    ∷ codes "ruby"
    ∷ codes "irb"
    ∷ codes "node"
    ∷ codes "nodejs"
    ∷ codes "php"
    ∷ codes "php7"
    ∷ codes "php8"
    ∷ codes "lua"
    ∷ codes "lua5.1"
    ∷ codes "lua5.2"
    ∷ codes "lua5.3"
    ∷ codes "lua5.4"
    ∷ codes "awk"
    ∷ codes "gawk"
    ∷ codes "mawk"
    ∷ codes "nawk"
    ∷ codes "tclsh"
    ∷ codes "wish"
    ∷ codes "expect"
    ∷ []

unfoldable pub is_known_interpreter : Str → Bool
is_known_interpreter command = one_of interpreters (get_basename command)

abbrev pub awks : List Str
awks = codes "awk" ∷ codes "gawk" ∷ codes "mawk" ∷ codes "nawk" ∷ []

abbrev pub awk_blocks : List Str
awk_blocks = codes "BEGIN{" ∷ codes "BEGIN {" ∷ codes "END{" ∷ codes "END {" ∷ []

unfoldable pub is_awk_with_blocks : Str → List Str → Bool
is_awk_with_blocks base args =
    one_of awks base && any (λ arg. any (has_prefix (trim_space arg)) awk_blocks) args

abbrev python_flags : List Str
python_flags = codes "-c" ∷ codes "--command" ∷ []

abbrev perl_flags : List Str
perl_flags = codes "-e" ∷ codes "-E" ∷ []

abbrev node_flags : List Str
node_flags = codes "-e" ∷ codes "--eval" ∷ []

abbrev pub dangerous_flags : Map (List Str)
dangerous_flags =
    (codes "python", python_flags)
    ∷ (codes "python2", python_flags)
    ∷ (codes "python3", python_flags)
    ∷ (codes "python2.7", python_flags)
    ∷ (codes "python3.6", python_flags)
    ∷ (codes "python3.7", python_flags)
    ∷ (codes "python3.8", python_flags)
    ∷ (codes "python3.9", python_flags)
    ∷ (codes "python3.10", python_flags)
    ∷ (codes "python3.11", python_flags)
    ∷ (codes "python3.12", python_flags)
    ∷ (codes "perl", perl_flags)
    ∷ (codes "perl5", perl_flags)
    ∷ (codes "ruby", codes "-e" ∷ [])
    ∷ (codes "irb", codes "-e" ∷ [])
    ∷ (codes "node", node_flags)
    ∷ (codes "nodejs", node_flags)
    ∷ (codes "php", codes "-r" ∷ [])
    ∷ (codes "php7", codes "-r" ∷ [])
    ∷ (codes "php8", codes "-r" ∷ [])
    ∷ (codes "lua", codes "-e" ∷ [])
    ∷ (codes "lua5.1", codes "-e" ∷ [])
    ∷ (codes "lua5.2", codes "-e" ∷ [])
    ∷ (codes "lua5.3", codes "-e" ∷ [])
    ∷ (codes "lua5.4", codes "-e" ∷ [])
    ∷ (codes "tclsh", codes "-c" ∷ [])
    ∷ (codes "wish", codes "-c" ∷ [])
    ∷ []

-- arg == flag || strings.HasPrefix(arg, flag+"=")
abbrev pub is_flag : Str → Str → Bool
is_flag arg flag = text_eq arg flag || has_prefix arg (flag ++ b'=' ∷ [])

-- The loop over the arguments, for the flags of the interpreter; `none` where it is not tracked.
abbrev pub any_flag : Option (List Str) → List Str → Bool
any_flag none args = false
any_flag (some flags) args = any (λ arg. any (is_flag arg) flags) args

unfoldable pub has_dangerous_flags : Str → List Str → Bool
has_dangerous_flags base args = any_flag (lookup base dangerous_flags) args

unfoldable pub has_code_execution_flags : Str → List Str → Bool
has_code_execution_flags command args =
    is_awk_with_blocks (get_basename command) args
    || has_dangerous_flags (get_basename command) args

abbrev pub suspicious_flags : List Str
suspicious_flags =
    codes "-c" ∷ codes "-e" ∷ codes "-E" ∷ codes "-r" ∷ codes "--eval" ∷ codes "--command" ∷ []

unfoldable pub has_suspicious_flags : List Str → Bool
has_suspicious_flags args = any (one_of suspicious_flags) args

-- len(args) > 0
abbrev pub has_args : List Str → Bool
has_args [] = false
has_args (a ∷ args) = true

unfoldable pub detect_execution_type : Str → List Str → ExecutionType
detect_execution_type command args =
    if is_shell_execution command && has_args args
    then shell
    else if has_code_execution_flags command args
    then interpreter
    else if has_suspicious_flags args
    then suspicious
    else safe

abbrev is_unsafe : ExecutionType → Bool
is_unsafe safe = false
is_unsafe shell = true
is_unsafe interpreter = true
is_unsafe suspicious = true

unfoldable pub is_dangerous_execution : Str → List Str → Bool
is_dangerous_execution command args = is_unsafe (detect_execution_type command args)
