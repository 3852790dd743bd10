-- ===== src/CapabilityChecker/Middleware.antt =====
-- CapabilityMiddleware of capability_checker.go. The JSON decoders of the requests of package
-- hostfunc, which leave out the fields that are not read here, and url.Parse are parameters.
use reglet_hostlib.Base.{Bool, Option, none, some, List, [], ◌++◌, ◌⊎◌, inl, inr, if◌then◌else◌}
use reglet_hostlib.Base.Text.{Str, codes, text_eq}
use reglet_hostlib.Base.Int.{pos, atoi}
use reglet_hostlib.Policy.Engine.{World}
use reglet_hostlib.Registry.{Context, ByteHandler, ErrorResponse, new_validation_error}
use reglet_hostlib.ExecSecurity.{
  ExecutionType, safe, shell, interpreter, suspicious, detect_execution_type,
  is_dangerous_execution,
}
use reglet_hostlib.CapabilityChecker.{
  Checker, CheckError, check_network_capability, check_network_connection, check_exec_capability,
  allows_private_network, error_text,
}

-- url.Parse: Scheme, Hostname() and Port().
pub record Url : Type 0 where
  pub scheme : Str
  pub hostname : Str
  pub port : Str

-- json.Unmarshal, `none` on an error: DNSRequest (Hostname), TCPRequest and SMTPRequest (Host and
-- Port), HTTPRequest (URL), ExecRequest (Command and Args); and url.Parse, with the error's text.
pub record Decoders : Type 0 where
  pub dns : Str → Option Str
  pub tcp : Str → Option (Str × Str)
  pub smtp : Str → Option (Str × Str)
  pub http : Str → Option Str
  pub exec : Str → Option (Str × List Str)
  pub parse_url : Str → Str ⊎ Url

-- The error response of a denied call, if it is denied, and the checker after it.
abbrev pub Verdict : Type 0
Verdict = Option ErrorResponse × Checker

-- NewValidationError(err.Error())
abbrev pub as_response : Option CheckError × Checker → Verdict
as_response (none, c) = (none, c)
as_response (some e, c) = (some (new_validation_error (error_text e)), c)

abbrev pub judge_address : World → Str → Option (Str × Str) → Checker → Verdict
judge_address w plugin none c = (none, c)
judge_address w plugin (some (host, port)) c =
    as_response (check_network_capability w plugin (record { host = host; port = (atoi port).0 }) c)

abbrev pub judge_dns : World → Str → Option Str → Checker → Verdict
judge_dns w plugin none c = (none, c)
judge_dns w plugin (some hostname) c =
    as_response (check_network_capability w plugin (record { host = hostname; port = pos 53 }) c)

abbrev pub port_of : Url → Str
port_of url =
    if text_eq url.port []
    then (if text_eq url.scheme (codes "https") then codes "443" else codes "80")
    else url.port

-- checkHTTPCapability
abbrev pub judge_url : World → Str → Str ⊎ Url → Checker → Verdict
judge_url w plugin (inl e) c = (some (new_validation_error (codes "invalid URL: " ++ e)), c)
judge_url w plugin (inr url) c =
    as_response (check_network_connection w plugin url.hostname (atoi (port_of url)).0 c)

abbrev pub judge_http : World → Decoders → Str → Option Str → Checker → Verdict
judge_http w d plugin none c = (none, c)
judge_http w d plugin (some raw_url) c = judge_url w plugin (d.parse_url raw_url) c

-- GetExecutionTypeDescription
abbrev describe_type : ExecutionType → Str
describe_type safe = codes "safe"
describe_type shell = codes "shell"
describe_type interpreter = codes "interpreter code execution"
describe_type suspicious = codes "suspicious execution"

abbrev pub requires_text : Str → List Str → Str
requires_text command args =
    describe_type (detect_execution_type command args)
    ++ codes " requires 'exec:"
    ++ command
    ++ codes "' capability"

-- The response of a denied command says what it was taken for, if it is dangerous.
abbrev pub as_exec_response : Str → List Str → Option CheckError × Checker → Verdict
as_exec_response command args (none, c) = (none, c)
as_exec_response command args (some e, c) = (
  some (
      new_validation_error
        (if is_dangerous_execution command args then requires_text command args else error_text e)),
  c,
)

abbrev pub judge_exec : World → Str → Option (Str × List Str) → Checker → Verdict
judge_exec w plugin none c = (none, c)
judge_exec w plugin (some (command, args)) c =
    as_exec_response command args (check_exec_capability w plugin (record { command = command }) c)

-- The switch on the function's name.
unfoldable pub judge_call : World → Decoders → Str → Str → Str → Checker → Verdict
judge_call w d plugin function payload c =
    if text_eq function (codes "dns_lookup")
    then judge_dns w plugin (d.dns payload) c
    else if text_eq function (codes "tcp_connect")
    then judge_address w plugin (d.tcp payload) c
    else if text_eq function (codes "smtp_connect")
    then judge_address w plugin (d.smtp payload) c
    else if text_eq function (codes "http_request")
    then judge_http w d plugin (d.http payload) c
    else if text_eq function (codes "exec_command")
    then judge_exec w plugin (d.exec payload) c
    else (none, c)

-- hc.FunctionName() of a HostContext, "" of any other context
abbrev pub function_name : Context → Str
function_name ctx = elim ctx.function [ some function ↦ function | none ↦ [] ]

-- context.WithValue: a context with the mark, which is no HostContext.
abbrev pub with_private : Bool → Context → Context
with_private allow ctx = record ctx { function = none; allow_private = some allow }

-- A handler's result: its answer, from a state of the checker.
abbrev pub Stateful {ℓ} : Type ℓ → Type ℓ
Stateful A = Checker → A × Checker

module _ {ℓ} {A : Type ℓ} (w : World) (d : Decoders) (respond : ErrorResponse → A) where
  abbrev pub proceed : (Checker → A × Checker) → Verdict → A × Checker
  proceed next (none, c) = next c
  proceed next (some e, c) = (respond e, c)

  abbrev pub enforce : Str → ByteHandler (Stateful A) → Context → Str → Bool × Checker → A × Checker
  enforce plugin next ctx payload (allow, c) =
      proceed (next (with_private allow ctx) payload)
        (judge_call w d plugin (function_name ctx) payload c)

  -- CapabilityMiddleware
  unfoldable pub capability_middleware : ByteHandler (Stateful A) → ByteHandler (Stateful A)
  capability_middleware next ctx payload c = elim ctx.plugin [
    | none ↦ next ctx payload c
    | some plugin ↦ enforce plugin next ctx payload (allows_private_network w plugin c)
  ]
