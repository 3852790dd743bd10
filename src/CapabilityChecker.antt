-- ===== src/CapabilityChecker.antt =====
-- capability_checker.go: the checks of a plugin's granted capabilities, on the policy engine.
-- `Checker` is the object's state with the calls of its denial handler, if it has one.
pub mod Middleware
pub mod Checks
pub mod Asked
pub mod Mediation
pub mod Examples
use reglet_hostlib.Base.{
  ℕ, zero, suc, ◌+◌, ◌/◌, ◌%◌, Bool, true, false, not, Option, none, some, List, [], ◌∷◌, ◌++◌, ltb,
  drop, if◌then◌else◌,
}
use reglet_hostlib.Base.Text.{Str, codes, text_eq, has_prefix}
use reglet_hostlib.Base.Int.{ℤ, pos, show_int}
use reglet_hostlib.Base.Map.{Map, lookup, insert}
use reglet_hostlib.Grants.{
  NetworkRequest, FileSystemRequest, EnvironmentRequest, ExecCapabilityRequest,
}
use reglet_hostlib.Policy.Engine.{
  World, Engine, Pointer, PolicyConfig, check_network, check_file_system, check_environment,
  check_exec, evaluate_network,
}

-- The options of NewCapabilityChecker.
pub data CheckerOption : Type 0 where
  working_directory : Str → CheckerOption
  symlink_resolution : Bool → CheckerOption
  denial_handler : CheckerOption

pub record CheckerConfig : Type 0 where
  pub cwd : Str
  pub symlink_resolution : Bool
  pub has_handler : Bool

abbrev apply_option : CheckerConfig → CheckerOption → CheckerConfig
apply_option cfg (working_directory cwd) = record cfg { cwd = cwd }
apply_option cfg (symlink_resolution enabled) = record cfg { symlink_resolution = enabled }
apply_option cfg denial_handler = record cfg { has_handler = true }

unfoldable pub apply_options : CheckerConfig → List CheckerOption → CheckerConfig
apply_options cfg [] = cfg
apply_options cfg (o ∷ os) = apply_options (apply_option cfg o) os

-- What an error names: "host:port", or a text.
pub data Pattern : Type 0 where
  host_port : Str → ℤ → Pattern
  plain : Str → Pattern

pub record CheckError : Type 0 where
  pub message : Str
  pub pattern : Pattern

pub record Denial : Type 0 where
  pub plugin : Str
  pub kind : Str
  pub error : CheckError

pub record Checker : Type 0 where
  pub policy : Engine
  pub granted : Map (Option Pointer)
  pub has_handler : Bool
  pub denied : List Denial

-- NewCapabilityChecker: the state, and the configuration of its policy; `getwd` is what os.Getwd
-- gives.
unfoldable pub new_capability_checker :
    Str → Map (Option Pointer) → List CheckerOption → Checker × PolicyConfig
unfolding apply_options text_eq
new_capability_checker getwd caps opts =
    let cfg =
      apply_options (record { cwd = []; symlink_resolution = true; has_handler = false }) opts in
    (
      record {
        policy = record { cache = []; denials = [] };
        granted = caps;
        has_handler = cfg.has_handler;
        denied = [];
      },
      record {
        cwd = if text_eq cfg.cwd [] then getwd else cfg.cwd;
        resolve_symlinks = cfg.symlink_resolution;
      },
    )

-- RegisterGrants
unfoldable pub register_grants : Str → Option Pointer → Checker → Checker
register_grants plugin grants c = record c { granted = insert plugin grants c.granted }

-- An error of a check, or nil, and the state after it.
abbrev pub Checking : Type 0
Checking = Option CheckError × Checker

-- handleDeny
unfoldable pub handle_deny : Str → Str → Pattern → Str → Checker → Checking
handle_deny plugin kind pattern message c =
    let e : CheckError = record { message = message; pattern = pattern } in
    (
      some e,
      if c.has_handler
          then record c {
            denied = c.denied ++ record { plugin = plugin; kind = kind; error = e } ∷ [];
          }
          else c,
    )

-- grants, ok := c.grantedCapabilities[pluginName], with a nil pointer as a missing entry
abbrev pub or_nil : Option (Option Pointer) → Option Pointer
or_nil none = none
or_nil (some grants) = grants

abbrev pub grants_of : Str → Checker → Option Pointer
grants_of plugin c = or_nil (lookup plugin c.granted)

-- The body that the checks share: the policy's check under the plugin's grants.
abbrev pub answered : Str → Str → Pattern → Str → Checker → Bool × Engine → Checking
answered plugin kind pattern message c (true, e) = (none, record c { policy = e })
answered plugin kind pattern message c (false, e) =
    handle_deny plugin kind pattern message (record c { policy = e })

abbrev pub ask :
    (Pointer → Engine → Bool × Engine)
    → Str
    → Str
    → Pattern
    → Str
    → Checker
    → Option Pointer
    → Checking
ask run plugin kind pattern message c none =
    handle_deny plugin kind pattern (codes "no capabilities granted") c
ask run plugin kind pattern message c (some p) =
    answered plugin kind pattern message c (run p c.policy)

unfoldable pub check_network_capability : World → Str → NetworkRequest → Checker → Checking
check_network_capability w plugin req c =
    ask (λ p. check_network w req (some p)) plugin (codes "network") (host_port req.host req.port)
      (codes "network capability denied") c (grants_of plugin c)

-- CheckNetworkConnection: the silent evaluation, and the check that reports where it denies.
abbrev pub loud : World → NetworkRequest → Pointer → Bool × Engine → Bool × Engine
loud w req p (true, e) = (true, e)
loud w req p (false, e) = (false, (check_network w req (some p) e).1)

unfoldable pub check_network_connection : World → Str → Str → ℤ → Checker → Checking
check_network_connection w plugin host port c =
    ask
      (λ p e.
        loud w (record { host = host; port = port }) p
          (evaluate_network w (record { host = host; port = port }) (some p) e))
      plugin (codes "network") (host_port host port) (codes "network capability denied") c
      (grants_of plugin c)

unfoldable pub check_file_system_capability : World → Str → FileSystemRequest → Checker → Checking
check_file_system_capability w plugin req c =
    ask (λ p. check_file_system w req (some p)) plugin (codes "fs") (plain req.path)
      (codes "filesystem capability denied") c (grants_of plugin c)

unfoldable pub check_environment_capability : World → Str → EnvironmentRequest → Checker → Checking
check_environment_capability w plugin req c =
    ask (λ p. check_environment w req (some p)) plugin (codes "env") (plain req.variable)
      (codes "environment capability denied") c (grants_of plugin c)

unfoldable pub check_exec_capability : World → Str → ExecCapabilityRequest → Checker → Checking
check_exec_capability w plugin req c =
    ask (λ p. check_exec w req (some p)) plugin (codes "exec") (plain req.command)
      (codes "exec capability denied") c (grants_of plugin c)

-- AllowsPrivateNetwork
abbrev pub loopback_request : NetworkRequest
loopback_request = record { host = codes "127.0.0.1"; port = pos 0 }

abbrev pub probe_private : World → Checker → Option Pointer → Bool × Checker
probe_private w c none = (false, c)
probe_private w c (some p) =
    let (answer, e) = evaluate_network w loopback_request (some p) c.policy in
    (answer, record c { policy = e })

unfoldable pub allows_private_network : World → Str → Checker → Bool × Checker
allows_private_network w plugin c = probe_private w c (grants_of plugin c)

-- ToCapabilityGetter: "env:NAME" asks for the variable, and then for the capability as a command;
-- any other capability is asked for as a command.
abbrev pub is_nil : Option CheckError → Bool
is_nil none = true
is_nil (some e) = false

abbrev exec_grants : World → Str → Str → Checker → Bool × Checker
exec_grants w plugin capability c =
    let (e, c') = check_exec_capability w plugin (record { command = capability }) c in
    (is_nil e, c')

abbrev or_exec : World → Str → Str → Checking → Bool × Checker
or_exec w plugin capability (none, c) = (true, c)
or_exec w plugin capability (some e, c) = exec_grants w plugin capability c

unfoldable pub capability_getter : World → Str → Str → Checker → Bool × Checker
unfolding has_prefix
capability_getter w plugin capability c =
    if has_prefix capability (codes "env:")
    then or_exec w plugin capability
        (check_environment_capability w plugin (record { variable = drop 4 capability }) c)
    else exec_grants w plugin capability c

-- The text of an error: fmt.Sprintf with "%s:%d" and "%s: %s".
abbrev pub show_pattern : Pattern → Str
show_pattern (host_port host port) = host ++ b':' ∷ show_int port
show_pattern (plain s) = s

abbrev pub error_text : CheckError → Str
error_text e = e.message ++ codes ": " ++ show_pattern e.pattern
