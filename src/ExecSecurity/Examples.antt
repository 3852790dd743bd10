-- ===== src/ExecSecurity/Examples.antt =====
-- Tests of the environment filter and of the detection, and their theorems at concrete inputs.
use reglet_hostlib.Base.{◌≡◌, refl, ◌↔◌, ◌⊎◌, true, some, List, [], ◌∷◌, Any, any}
use reglet_hostlib.Base.Text.{Str, codes, text_eq, cut, has_prefix, one_of, cut_last, trim_space}
use reglet_hostlib.Base.Map.{lookup}
use reglet_hostlib.ExecSecurity.{
  CapabilityGetter, sanitize_env, detect_execution_type, is_dangerous_execution, get_basename,
  shell, interpreter, suspicious, safe, is_always_blocked_env, to_upper, is_shell_execution,
  has_code_execution_flags, is_awk_with_blocks, has_dangerous_flags, has_suspicious_flags,
}
use reglet_hostlib.ExecSecurity.Environment.{Passes, sanitize_env_iff}
use reglet_hostlib.ExecSecurity.Commands.{
  RunsShell, RunsAwk, RunsInterpreter, HasFlag, is_dangerous_execution_iff,
}

-- A plugin that may set PATH.
abbrev getter : CapabilityGetter
getter plugin capability = text_eq capability (codes "env:PATH")

abbrev env : List Str
env = codes "path=/bin" ∷ codes "HOME=/h" ∷ codes "ld_x=1" ∷ codes "broken" ∷ codes "A=b=c" ∷ []

sanitized :
    sanitize_env (λ s. s) (some getter) (codes "p") env ≡ codes "path=/bin" ∷ codes "A=b=c" ∷ []
unfolding sanitize_env text_eq cut is_always_blocked_env any has_prefix to_upper one_of
sanitized = refl

commands :
    (detect_execution_type (codes "/bin/sh") (codes "x" ∷ []) ≡ shell)
    × (detect_execution_type (codes "sh") [] ≡ safe)
    × (detect_execution_type (codes "node") (codes "--eval=1" ∷ []) ≡ interpreter)
    × (detect_execution_type (codes "gawk") (codes " BEGIN{x}" ∷ []) ≡ interpreter)
    × (detect_execution_type (codes "tool") (codes "-E" ∷ []) ≡ suspicious)
unfolding detect_execution_type is_shell_execution one_of get_basename cut_last
    has_code_execution_flags is_awk_with_blocks has_dangerous_flags lookup has_suspicious_flags any
    has_prefix trim_space
commands = (refl, refl, refl, refl, refl)

sanitize_env_iff_example :
    Any (λ d. d ≡ codes "path=/bin") (sanitize_env (λ s. s) (some getter) (codes "p") env) ↔ (
      Any (λ d. d ≡ codes "path=/bin") env
      × Passes (λ s. s) (some getter) (codes "p") (codes "path=/bin"))
sanitize_env_iff_example =
    sanitize_env_iff (λ s. s) (some getter) (codes "p") env (codes "path=/bin")

is_dangerous_execution_iff_example :
    (is_dangerous_execution (codes "/bin/sh") (codes "x" ∷ []) ≡ true) ↔ (
      RunsShell (codes "/bin/sh") (codes "x" ∷ [])
      ⊎ (RunsAwk (codes "/bin/sh") (codes "x" ∷ [])
          ⊎ RunsInterpreter (codes "/bin/sh") (codes "x" ∷ []))
      ⊎ HasFlag (codes "x" ∷ []))
is_dangerous_execution_iff_example = is_dangerous_execution_iff (codes "/bin/sh") (codes "x" ∷ [])

python_base : get_basename (codes "/usr/bin/python3") ≡ codes "python3"
unfolding get_basename cut_last
python_base = refl
