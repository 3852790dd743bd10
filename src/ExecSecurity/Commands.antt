-- ===== src/ExecSecurity/Commands.antt =====
-- Which commands are judged to run code.
use mathlib.Core.Path.{subst}
use reglet_hostlib.Base.{
  ℕ, ◌&&◌, ◌||◌, ◌≡◌, refl, ◌≢◌, ◌↔◌, ◌⊎◌, or_iff, and_iff, true, Option, none, some, List, [], ◌∷◌,
  ◌++◌, arith, Any, any, any_iff,
}
use reglet_hostlib.Base.Text.{
  Str, codes, text_eq, text_eq_iff, has_prefix, one_of, one_of_iff, trim_space,
}
use reglet_hostlib.Base.Map.{lookup}
use reglet_hostlib.ExecSecurity.{
  safe, get_basename, shells, is_shell_execution, awks, awk_blocks, is_awk_with_blocks,
  dangerous_flags, is_flag, any_flag, has_dangerous_flags, has_code_execution_flags,
  suspicious_flags, has_suspicious_flags, has_args, detect_execution_type, is_dangerous_execution,
}

-- A shell with arguments.
abbrev pub RunsShell : Str → List Str → Type 0
RunsShell command args = Any (λ s. s ≡ get_basename command) shells × (args ≢ [])

-- An AWK with a program that begins with a BEGIN or an END block.
abbrev pub RunsAwk : Str → List Str → Type 0
RunsAwk command args =
    Any (λ s. s ≡ get_basename command) awks
    × Any (λ arg. Any (λ block. has_prefix (trim_space arg) block ≡ true) awk_blocks) args

-- An argument that is a flag, or begins with the flag and "=".
abbrev pub IsFlag : Str → Str → Type 0
IsFlag arg flag = (arg ≡ flag) ⊎ (has_prefix arg (flag ++ b'=' ∷ []) ≡ true)

-- A tracked interpreter with one of the flags that take code.
abbrev pub RunsInterpreter : Str → List Str → Type 0
RunsInterpreter command args =
    (flags : List Str) × (lookup (get_basename command) dangerous_flags ≡ some flags)
    × Any (λ arg. Any (IsFlag arg) flags) args

-- Any command with an argument that is such a flag of some interpreter.
abbrev pub HasFlag : List Str → Type 0
HasFlag args = Any (λ arg. Any (λ flag. flag ≡ arg) suspicious_flags) args

has_args_iff : (args : List Str) → (has_args args ≡ true) ↔ (args ≢ [])
has_args_iff [] = (λ h. cc, λ n. absurd (n refl))
has_args_iff (a ∷ args) = (λ h e. cc, λ n. refl)

shell_iff :
    (command : Str) (args : List Str)
    → ((is_shell_execution command && has_args args) ≡ true) ↔ RunsShell command args
unfolding is_shell_execution
shell_iff command args = and_iff _ _ (one_of_iff shells (get_basename command)) (has_args_iff args)

awk_iff :
    (command : Str) (args : List Str)
    → (is_awk_with_blocks (get_basename command) args ≡ true) ↔ RunsAwk command args
unfolding is_awk_with_blocks
awk_iff command args = and_iff _ _ (one_of_iff awks (get_basename command)) (
    any_iff _ _ (λ arg. any_iff (has_prefix (trim_space arg)) _ (λ b. (λ h. h, λ h. h)) awk_blocks)
      args)

is_flag_iff : (arg flag : Str) → (is_flag arg flag ≡ true) ↔ IsFlag arg flag
is_flag_iff arg flag = or_iff _ _ (text_eq_iff arg flag) (λ h. h, λ h. h)

any_flag_iff :
    (tracked : Option (List Str)) (args : List Str)
    → (any_flag tracked args ≡ true)
      ↔ ((flags : List Str) × (tracked ≡ some flags) × Any (λ arg. Any (IsFlag arg) flags) args)
any_flag_iff none args = (λ h. cc, λ (flags, e, a). cc e)
any_flag_iff (some flags) args =
    let iff =
      any_iff (λ arg. any (is_flag arg) flags) (λ arg. Any (IsFlag arg) flags)
        (λ arg. any_iff (is_flag arg) (IsFlag arg) (is_flag_iff arg) flags) args in
    (
      λ h. (flags, refl, iff.0 h),
      λ (flags', e, a).
          let same : flags' ≡ flags = cc e in
          iff.1 (subst (λ fs. Any (λ arg. Any (IsFlag arg) fs) args) same a),
    )

interpreter_iff :
    (command : Str) (args : List Str)
    → (has_code_execution_flags command args ≡ true)
      ↔ (RunsAwk command args ⊎ RunsInterpreter command args)
unfolding has_code_execution_flags has_dangerous_flags
interpreter_iff command args =
    or_iff _ _ (awk_iff command args)
      (any_flag_iff (lookup (get_basename command) dangerous_flags) args)

suspicious_iff : (args : List Str) → (has_suspicious_flags args ≡ true) ↔ HasFlag args
unfolding has_suspicious_flags
suspicious_iff args =
    any_iff (one_of suspicious_flags) _ (λ arg. one_of_iff suspicious_flags arg) args

dangerous_tests :
    (command : Str) (args : List Str)
    → is_dangerous_execution command args ≡ (
        is_shell_execution command && has_args args
        || (has_code_execution_flags command args || has_suspicious_flags args))
unfolding is_dangerous_execution detect_execution_type
dangerous_tests command args = ground arith

-- `IsDangerousExecution` holds exactly for a shell with arguments, an AWK with a BEGIN or END
-- block, a tracked interpreter with one of its code flags, and any command with an argument that is
-- a code flag.
pub is_dangerous_execution_iff :
    (command : Str) (args : List Str)
    → (is_dangerous_execution command args ≡ true) ↔ (
        RunsShell command args
        ⊎ (RunsAwk command args ⊎ RunsInterpreter command args)
        ⊎ HasFlag args)
is_dangerous_execution_iff command args = rw (dangerous_tests command args) (
    or_iff _ _ (shell_iff command args)
      (or_iff _ _ (interpreter_iff command args) (suspicious_iff args)))

-- A command whose base name is python3, with the one argument -cCODE, is judged safe, unless the
-- code begins with "=".
pub attached_code-safe :
    (command : Str) (c : ℕ) (code : Str)
    → get_basename command ≡ codes "python3"
    → c ≢ b'='
    → detect_execution_type command ((b'-' ∷ b'c' ∷ c ∷ code) ∷ []) ≡ safe
unfolding detect_execution_type is_shell_execution has_code_execution_flags is_awk_with_blocks
    has_dangerous_flags has_suspicious_flags one_of any lookup text_eq has_prefix
attached_code-safe command c code base n = simp base (ground arith)
