-- ===== src/Exec.antt =====
-- exec.go: running a command for a plugin. The process is a parameter, which answers a command by
-- what it writes and how it ends; os/exec passes the environment on as it is. Log lines are left
-- out. A context that has a deadline of its own is not modelled.
pub mod Secure
pub mod Bounded
pub mod Examples
use reglet_hostlib.Base.{
  ℕ, ◌*◌, ◌^◌, Bool, true, false, Option, none, some, List, [], ◌∷◌, ◌++◌, if◌then◌else◌,
}
use reglet_hostlib.Base.Text.{Str, codes, text_eq}
use reglet_hostlib.Base.Int.{ℤ, pos, negsuc, pos_part, ltb_ℤ, milliseconds}
use reglet_hostlib.BoundedBuffer.{BoundedBuffer, new_bounded_buffer, bytes, write_all}
use reglet_hostlib.ExecSecurity.{CapabilityGetter, sanitize_env}

pub record ExecCommandRequest : Type 0 where
  pub command : Str
  pub args : List Str
  pub dir : Str
  pub env : List Str
  pub timeout : ℤ

pub record ExecError : Type 0 where
  pub code : Str
  pub message : Str

pub record ExecCommandResponse : Type 0 where
  pub error : Option ExecError
  pub stdout : List ℕ
  pub stderr : List ℕ
  pub duration_ms : ℤ
  pub exit_code : ℤ
  pub is_timeout : Bool
  pub stdout_truncated : Bool
  pub stderr_truncated : Bool

-- The zero value.
abbrev pub empty_response : ExecCommandResponse
empty_response = record {
  error = none;
  stdout = [];
  stderr = [];
  duration_ms = pos 0;
  exit_code = pos 0;
  is_timeout = false;
  stdout_truncated = false;
  stderr_truncated = false;
}

-- Times are in nanoseconds.
pub record ExecConfig : Type 0 where
  pub capability_check : Option CapabilityGetter
  pub plugin_name : Str
  pub timeout : ℤ
  pub max_output_size : ℕ
  pub sanitize : Bool
  pub isolate_env : Bool

unfoldable pub default_exec_config : ExecConfig
default_exec_config = record {
  capability_check = none;
  plugin_name = [];
  timeout = pos (30 * 10 ^ 9);
  max_output_size = 10 * 1024 * 1024;
  sanitize = false;
  isolate_env = false;
}

pub data ExecOption : Type 0 where
  with_exec_timeout : ℤ → ExecOption
  with_max_output_size : ℤ → ExecOption
  with_env_sanitization : Str → Option CapabilityGetter → ExecOption
  with_isolated_env : ExecOption

unfoldable pub apply_option : ExecOption → ExecConfig → ExecConfig
apply_option (with_exec_timeout d) c = if ltb_ℤ (pos 0) d then record c { timeout = d } else c
apply_option (with_max_output_size size) c =
    if ltb_ℤ (pos 0) size then record c { max_output_size = pos_part size } else c
apply_option (with_env_sanitization plugin getter) c = record c {
  sanitize = true;
  plugin_name = plugin;
  capability_check = getter;
}
apply_option with_isolated_env c = record c { isolate_env = true }

unfoldable pub apply_options : List ExecOption → ExecConfig → ExecConfig
apply_options [] c = c
apply_options (o ∷ os) c = apply_options os (apply_option o c)

abbrev pub request_timeout : ExecCommandRequest → ExecConfig → ExecConfig
request_timeout req c =
    if ltb_ℤ (pos 0) req.timeout then record c { timeout = milliseconds req.timeout } else c

-- What is handed to os/exec; an empty `dir` is not set.
pub record Command : Type 0 where
  pub path : Str
  pub args : List Str
  pub dir : Str
  pub env : List Str
  pub timeout : ℤ

pub data RunError : Type 0 where
  exit_error : ℤ → RunError
  other_error : Str → RunError

-- How a command went: the writes to its two outputs, its time, the error of Run, and whether the
-- deadline of its context has passed.
pub record Ran : Type 0 where
  pub stdout : List (List ℕ)
  pub stderr : List (List ℕ)
  pub duration_ms : ℤ
  pub deadline_exceeded : Bool
  pub error : Option RunError

unfoldable pub exec_env : (Str → Str) → ExecConfig → List Str → List Str
exec_env unicode c env =
    if c.sanitize then sanitize_env unicode c.capability_check c.plugin_name env else env

unfoldable pub exec_command : (Str → Str) → ExecConfig → ExecCommandRequest → Command
exec_command unicode c req = record {
  path = req.command;
  args = req.args;
  dir = req.dir;
  env = exec_env unicode c req.env;
  timeout = c.timeout;
}

abbrev pub classified : Ran → ExecCommandResponse → Option RunError → ExecCommandResponse
classified ran resp none = record resp { exit_code = pos 0 }
classified ran resp (some (exit_error code)) =
    if ran.deadline_exceeded
    then record resp { is_timeout = true; exit_code = negsuc 0 }
    else record resp { exit_code = code }
classified ran resp (some (other_error message)) =
    if ran.deadline_exceeded
    then record resp { is_timeout = true; exit_code = negsuc 0 }
    else record resp {
      error = some (record { code = codes "EXECUTION_FAILED"; message = message });
    }

unfoldable pub exec_response : ExecConfig → Ran → ExecCommandResponse
exec_response c ran =
    let stdout = write_all (new_bounded_buffer c.max_output_size) ran.stdout in
    let stderr = write_all (new_bounded_buffer c.max_output_size) ran.stderr in
    classified ran
      (record empty_response {
        stdout = bytes stdout;
        stderr = bytes stderr;
        duration_ms = ran.duration_ms;
        stdout_truncated = stdout.truncated;
        stderr_truncated = stderr.truncated;
      })
      ran.error

-- The command that was run, if any, and the response.
pub record Performed : Type 0 where
  pub started : Option Command
  pub response : ExecCommandResponse

abbrev pub perform_with :
    (Str → Str) → (Command → Ran) → ExecCommandRequest → ExecConfig → Performed
perform_with unicode process req c =
    if text_eq req.command []
    then record {
      started = none;
      response = record empty_response {
        error =
            some (record { code = codes "INVALID_REQUEST"; message = codes "command is required" });
      };
    }
    else record {
      started = some (exec_command unicode c req);
      response = exec_response c (process (exec_command unicode c req));
    }

-- PerformExecCommand
unfoldable pub perform_exec_command :
    (Str → Str) → (Command → Ran) → ExecCommandRequest → List ExecOption → Performed
perform_exec_command unicode process req opts =
    perform_with unicode process req (request_timeout req (apply_options opts default_exec_config))

-- PerformSecureExecCommand
unfoldable pub perform_secure_exec_command :
    (Str → Str)
    → (Command → Ran)
    → ExecCommandRequest
    → Str
    → Option CapabilityGetter
    → List ExecOption
    → Performed
perform_secure_exec_command unicode process req plugin getter opts =
    perform_exec_command unicode process req
      (with_env_sanitization plugin getter ∷ with_isolated_env ∷ opts)
