-- ===== src/Exec/Secure.antt =====
-- What a command is given.
use mathlib.Core.Path.{subst}
use reglet_hostlib.Base.{
  ◌≡◌, refl, sym, ◌∙◌, ap, ◌↔◌, true, Option, some, List, [], ◌∷◌, Any, arith, Bool-cases, inl, inr,
  if◌then◌else◌,
}
use reglet_hostlib.Base.Text.{Str, text_eq}
use reglet_hostlib.ExecSecurity.{CapabilityGetter, sanitize_env}
use reglet_hostlib.ExecSecurity.Environment.{Passes, sanitize_env_iff}
use reglet_hostlib.Exec.{
  ExecCommandRequest, ExecConfig, default_exec_config, ExecOption, with_exec_timeout,
  with_max_output_size, with_env_sanitization, with_isolated_env, apply_option, apply_options,
  request_timeout, Command, Ran, exec_env, exec_command, exec_response, perform_with,
  perform_exec_command, perform_secure_exec_command,
}

-- Whose environment is let through: the plugin and its capability getter.
pub record Sanitizer : Type 0 where
  pub plugin : Str
  pub getter : Option CapabilityGetter

-- The last sanitizer that the options name.
abbrev pub last_sanitizer : List ExecOption → Sanitizer → Sanitizer
last_sanitizer [] s = s
last_sanitizer (with_env_sanitization plugin getter ∷ os) s =
    last_sanitizer os (record { plugin = plugin; getter = getter })
last_sanitizer (with_exec_timeout d ∷ os) s = last_sanitizer os s
last_sanitizer (with_max_output_size size ∷ os) s = last_sanitizer os s
last_sanitizer (with_isolated_env ∷ os) s = last_sanitizer os s

abbrev sanitizer_of : ExecConfig → Sanitizer
sanitizer_of c = record { plugin = c.plugin_name; getter = c.capability_check }

record Sanitizes (s : Sanitizer) (c : ExecConfig) : Type 0 where
  sanitizes : c.sanitize ≡ true
  same : sanitizer_of c ≡ s

apply_options-Sanitizes :
    (os : List ExecOption) (c : ExecConfig) (s : Sanitizer)
    → Sanitizes s c
    → Sanitizes (last_sanitizer os s) (apply_options os c)
unfolding apply_options apply_option
apply_options-Sanitizes [] c s h = h
apply_options-Sanitizes (with_exec_timeout d ∷ os) c s h =
    apply_options-Sanitizes os _ s (ground arith)
apply_options-Sanitizes (with_max_output_size size ∷ os) c s h =
    apply_options-Sanitizes os _ s (ground arith)
apply_options-Sanitizes (with_env_sanitization plugin getter ∷ os) c s h =
    apply_options-Sanitizes os _ _ (record { sanitizes = refl; same = refl })
apply_options-Sanitizes (with_isolated_env ∷ os) c s h =
    apply_options-Sanitizes os _ s (record { sanitizes = h.sanitizes; same = h.same })

-- What a command runs with: the request's own command, and of its variables those that pass.
pub record Contained (unicode : Str → Str) (req : ExecCommandRequest) (s : Sanitizer) (c : Command)
    : Type 0 where
  pub path : c.path ≡ req.command
  pub args : c.args ≡ req.args
  pub dir : c.dir ≡ req.dir
  pub env :
      (e : Str)
      → Any (λ d. d ≡ e) c.env ↔ (Any (λ d. d ≡ e) req.env × Passes unicode s.getter s.plugin e)

exec_command-Contained :
    (unicode : Str → Str) (req : ExecCommandRequest) (s : Sanitizer) (c : ExecConfig)
    → Sanitizes s c
    → Contained unicode req s (exec_command unicode c req)
unfolding exec_command exec_env
exec_command-Contained unicode req s c h = record {
  path = refl;
  args = refl;
  dir = refl;
  env = λ e.
      subst
        (λ (z : Sanitizer).
          Any (λ d. d ≡ e)
            (if c.sanitize
              then sanitize_env unicode c.capability_check c.plugin_name req.env
              else req.env)
          ↔ (Any (λ d. d ≡ e) req.env × Passes unicode z.getter z.plugin e))
        h.same
        (rw h.sanitizes (sanitize_env_iff unicode c.capability_check c.plugin_name req.env e));
}

request_timeout-Sanitizes :
    (req : ExecCommandRequest) (c : ExecConfig) (s : Sanitizer)
    → Sanitizes s c
    → Sanitizes s (request_timeout req c)
request_timeout-Sanitizes req c s h = ground arith

some_injective : {a b : Command} → some a ≡ some b → a ≡ b
some_injective h = cc

secured-Sanitizes :
    (plugin : Str) (getter : Option CapabilityGetter) (opts : List ExecOption)
    → Sanitizes (last_sanitizer opts (record { plugin = plugin; getter = getter })) (
        apply_options
          (with_env_sanitization plugin getter ∷ with_isolated_env ∷ opts)
          default_exec_config)
unfolding apply_options apply_option
secured-Sanitizes plugin getter opts =
    apply_options-Sanitizes opts _ _ (record { sanitizes = refl; same = refl })

plain_env :
    (unicode : Str → Str) (req : ExecCommandRequest)
    → (exec_command unicode (request_timeout req default_exec_config) req).env ≡ req.env
unfolding exec_command exec_env default_exec_config
plain_env unicode req = ground arith

pub started_with :
    (unicode : Str → Str) (process : Command → Ran) (req : ExecCommandRequest) (c : ExecConfig)
    (cmd : Command)
    → (perform_with unicode process req c).started ≡ some cmd
    → (exec_command unicode c req ≡ cmd)
      × ((perform_with unicode process req c).response ≡ exec_response c (process cmd))
started_with unicode process req c cmd h = elim (Bool-cases (text_eq req.command [])) [
  | inl e ↦ absurd (cc (h, e))
  | inr e ↦
      let same : exec_command unicode c req ≡ cmd = some_injective (rw e at h) in
      (same, rw e (ap (λ k. exec_response c (process k)) same))
]

-- A command that `PerformSecureExecCommand` starts is that of the request, with its arguments and
-- directory, and whatever the options, its variables are exactly those of the request that the last
-- sanitization option, or else the one of the call, lets through.
pub perform_secure-Contained :
    (unicode : Str → Str) (process : Command → Ran) (req : ExecCommandRequest) (plugin : Str)
    (getter : Option CapabilityGetter) (opts : List ExecOption) (cmd : Command)
    → (perform_secure_exec_command unicode process req plugin getter opts).started ≡ some cmd
    → Contained unicode req (last_sanitizer opts (record { plugin = plugin; getter = getter })) cmd
unfolding perform_secure_exec_command perform_exec_command
perform_secure-Contained unicode process req plugin getter opts cmd h =
    let all = with_env_sanitization plugin getter ∷ with_isolated_env ∷ opts in
    let c = apply_options all default_exec_config in
    let s : Sanitizer = record { plugin = plugin; getter = getter } in
    let (same, answer) = started_with unicode process req (request_timeout req c) cmd h in
    subst (Contained unicode req (last_sanitizer opts s)) same (
      exec_command-Contained unicode req (last_sanitizer opts s) (request_timeout req c) (
        request_timeout-Sanitizes req c (last_sanitizer opts s)
          (secured-Sanitizes plugin getter opts)))

-- Without options, `PerformExecCommand` hands every variable of the request to the command.
pub plain_exec_env :
    (unicode : Str → Str) (process : Command → Ran) (req : ExecCommandRequest) (cmd : Command)
    → (perform_exec_command unicode process req []).started ≡ some cmd
    → cmd.env ≡ req.env
unfolding perform_exec_command apply_options
plain_exec_env unicode process req cmd h =
    let c = request_timeout req default_exec_config in
    let (same, answer) = started_with unicode process req c cmd h in
    sym (ap (λ k. k.env) same) ∙ plain_env unicode req
