-- ===== src/Exec/Bounded.antt =====
-- What is kept of the output of a command, and the time it is given.
use mathlib.Core.List.{flatten}
use mathlib.Core.Path.{subst}
use reglet_hostlib.Base.{
  ℕ, ◌*◌, ◌^◌, ◌<◌, ◌≡◌, refl, ◌∙◌, ap, Option, none, some, List, [], ◌∷◌, arith, take,
  if◌then◌else◌,
}
use reglet_hostlib.Base.Text.{Str}
use reglet_hostlib.Base.Int.{pos, pos_part, ltb_ℤ, int_half}
use reglet_hostlib.BoundedBuffer.{bytes}
use reglet_hostlib.BoundedBuffer.Contents.{buffer-write_all}
use reglet_hostlib.Exec.{
  ExecCommandRequest, ExecCommandResponse, ExecConfig, default_exec_config, ExecOption,
  with_exec_timeout, with_max_output_size, with_env_sanitization, with_isolated_env, apply_option,
  apply_options, request_timeout, Command, RunError, exit_error, other_error, Ran, exec_command,
  classified, exec_response, perform_exec_command,
}
use reglet_hostlib.Exec.Secure.{started_with}

-- The last positive size that the options name.
abbrev pub output_limit : List ExecOption → ℕ → ℕ
output_limit [] n = n
output_limit (with_max_output_size size ∷ os) n =
    output_limit os (if ltb_ℤ (pos 0) size then pos_part size else n)
output_limit (with_exec_timeout d ∷ os) n = output_limit os n
output_limit (with_env_sanitization plugin getter ∷ os) n = output_limit os n
output_limit (with_isolated_env ∷ os) n = output_limit os n

apply_options-limit :
    (os : List ExecOption) (c : ExecConfig)
    → (apply_options os c).max_output_size ≡ output_limit os c.max_output_size
unfolding apply_options apply_option
apply_options-limit [] c = refl
apply_options-limit (with_exec_timeout d ∷ os) c =
    apply_options-limit os _ ∙ ap (output_limit os) (ground arith)
apply_options-limit (with_max_output_size size ∷ os) c =
    apply_options-limit os _ ∙ ap (output_limit os) (ground arith)
apply_options-limit (with_env_sanitization plugin getter ∷ os) c = apply_options-limit os _
apply_options-limit (with_isolated_env ∷ os) c = apply_options-limit os _

default_limit : default_exec_config.max_output_size ≡ 10 * 1024 * 1024
unfolding default_exec_config
default_limit = refl

default_time : 0 < pos_part default_exec_config.timeout
unfolding default_exec_config
default_time = omega arith

-- What is kept of the outputs, and the time that a command is given.
pub record Bounded (req : ExecCommandRequest) (limit : ℕ) (cmd : Command) (ran : Ran)
    (resp : ExecCommandResponse) : Type 0 where
  pub stdout : resp.stdout ≡ take limit (flatten ran.stdout)
  pub stderr : resp.stderr ≡ take limit (flatten ran.stderr)
  pub timeout : pos_part req.timeout * 10 ^ 6 < int_half → 0 < pos_part cmd.timeout

classified-outputs :
    (ran : Ran) (resp : ExecCommandResponse) (e : Option RunError)
    → ((classified ran resp e).stdout ≡ resp.stdout)
      × ((classified ran resp e).stderr ≡ resp.stderr)
classified-outputs ran resp none = (refl, refl)
classified-outputs ran resp (some (exit_error code)) = ground arith
classified-outputs ran resp (some (other_error m)) = ground arith

exec_response-outputs :
    (c : ExecConfig) (ran : Ran)
    → ((exec_response c ran).stdout ≡ take c.max_output_size (flatten ran.stdout))
      × ((exec_response c ran).stderr ≡ take c.max_output_size (flatten ran.stderr))
unfolding exec_response bytes
exec_response-outputs c ran =
    let (out, error) = classified-outputs ran _ ran.error in
    (
      out ∙ buffer-write_all c.max_output_size ran.stdout,
      error ∙ buffer-write_all c.max_output_size ran.stderr,
    )

apply_options-timeout :
    (os : List ExecOption) (c : ExecConfig)
    → 0 < pos_part c.timeout
    → 0 < pos_part (apply_options os c).timeout
unfolding apply_options apply_option
apply_options-timeout [] c h = h
apply_options-timeout (with_exec_timeout d ∷ os) c h = apply_options-timeout os _ (ground arith)
apply_options-timeout (with_max_output_size size ∷ os) c h =
    apply_options-timeout os _ (ground arith)
apply_options-timeout (with_env_sanitization plugin getter ∷ os) c h = apply_options-timeout os _ h
apply_options-timeout (with_isolated_env ∷ os) c h = apply_options-timeout os _ h

request_timeout-pos :
    (req : ExecCommandRequest) (c : ExecConfig)
    → 0 < pos_part c.timeout
    → pos_part req.timeout * 10 ^ 6 < int_half
    → 0 < pos_part (request_timeout req c).timeout
request_timeout-pos req c h small = ground arith

limit-request_timeout :
    (req : ExecCommandRequest) (c : ExecConfig)
    → (request_timeout req c).max_output_size ≡ c.max_output_size
limit-request_timeout req c = ground arith

-- Of each output of a command that `PerformExecCommand` starts, the response has the first bytes,
-- up to the last positive size that the options name, or else 10 MB; and the command has a positive
-- time, if the milliseconds that are asked for fit 63 bits as nanoseconds.
pub perform_exec_command-Bounded :
    (unicode : Str → Str) (process : Command → Ran) (req : ExecCommandRequest)
    (opts : List ExecOption) (cmd : Command)
    → (perform_exec_command unicode process req opts).started ≡ some cmd
    → Bounded req
        (output_limit opts (10 * 1024 * 1024))
        cmd
        (process cmd)
        (perform_exec_command unicode process req opts).response
unfolding perform_exec_command exec_command
perform_exec_command-Bounded unicode process req opts cmd h =
    let c = request_timeout req (apply_options opts default_exec_config) in
    let (same, answer) = started_with unicode process req c cmd h in
    let (out, error) = exec_response-outputs c (process cmd) in
    let size : c.max_output_size ≡ output_limit opts (10 * 1024 * 1024) =
      limit-request_timeout req (apply_options opts default_exec_config)
      ∙ (apply_options-limit opts default_exec_config ∙ ap (output_limit opts) default_limit) in
    record {
      stdout =
          ap (λ r. r.stdout) answer ∙ (out ∙ ap (λ n. take n (flatten (process cmd).stdout)) size);
      stderr =
          ap (λ r. r.stderr) answer
          ∙ (error ∙ ap (λ n. take n (flatten (process cmd).stderr)) size);
      timeout = λ small.
          subst (λ k. 0 < pos_part k.timeout) same
            (request_timeout-pos req (apply_options opts default_exec_config)
              (apply_options-timeout opts default_exec_config default_time) small);
    }
