-- ===== src/Policy/Engine.antt =====
-- policy/policy.go: the engine. Grant sets are shared by pointer: `Heap` is what the pointers hold
-- at the time of a call, and the cache is keyed by the pointer. The denial handler
-- (policy/denial_handlers.go) is the list of its calls.
use reglet_hostlib.Base.{
  ℕ, Bool, true, false, ◌&&◌, Option, none, some, List, [], ◌∷◌, ◌++◌, ◌==◌, any, if◌then◌else◌,
}
use reglet_hostlib.Base.Text.{Str, codes, text_eq}
use reglet_hostlib.Base.Int.{ℤ, leb_ℤ}
use reglet_hostlib.Grants.{
  GrantSet, NetworkRequest, FileSystemRequest, EnvironmentRequest, ExecCapabilityRequest,
  KeyValueRequest,
}
use reglet_hostlib.Policy.{
  Doublestar, PortRange, CompiledNetworkRule, CompiledFsRule, CompiledKvRule, CompiledGrantSet,
  compile,
}
use reglet_hostlib.Policy.Filepath.{clean, is_abs, join}

abbrev pub Pointer : Type 0
Pointer = ℕ

abbrev pub Heap : Type 0
Heap = Pointer → GrantSet

pub record PolicyConfig : Type 0 where
  pub cwd : Str
  pub resolve_symlinks : Bool

pub data Denied : Type 0 where
  network : NetworkRequest → Denied
  fs : FileSystemRequest → Denied
  env : EnvironmentRequest → Denied
  exec : ExecCapabilityRequest → Denied
  kv : KeyValueRequest → Denied

pub record Engine : Type 0 where
  pub cache : List (Pointer × CompiledGrantSet)
  pub denials : List Denied

-- sync.Map Load
unfoldable pub load : List (Pointer × CompiledGrantSet) → Pointer → Option CompiledGrantSet
load [] p = none
load ((q, c) ∷ rest) p = if q == p then some c else load rest p

-- What the engine is built with, and the world that it reads: the pattern matcher, the symbolic
-- links of the file system (`none` is an error of EvalSymlinks), and the grant sets.
pub record World : Type 0 where
  pub ds : Doublestar
  pub eval_symlinks : Str → Option Str
  pub config : PolicyConfig
  pub heap : Heap

abbrev or_compile :
    World → Pointer → Engine → Option CompiledGrantSet → Option CompiledGrantSet × Engine
or_compile w p e (some c) = (some c, e)
or_compile w p e none =
    let c = compile w.ds (w.heap p) in (some c, record e { cache = (p, c) ∷ e.cache })

-- The loop over the ports of a rule.
unfoldable pub port_match : ℤ → List PortRange → Bool
port_match port ranges = any (λ pr. leb_ℤ pr.min port && leb_ℤ port pr.max) ranges

-- The patterns of a rule for an operation; any other operation has none.
unfoldable pub fs_patterns : Str → CompiledFsRule → List Str
fs_patterns operation rule =
    if text_eq operation (codes "read")
    then rule.read
    else if text_eq operation (codes "write")
    then rule.write
    else []

-- The switch on the operation of a rule.
unfoldable pub op_allowed : Str → Str → Bool
op_allowed rule_op operation =
    if text_eq rule_op (codes "read-write")
    then true
    else if text_eq rule_op (codes "read")
    then text_eq operation (codes "read")
    else if text_eq rule_op (codes "write")
    then text_eq operation (codes "write")
    else false

-- The frame of the five `Check` functions: a denial is reported to the handler.
unfoldable pub check : (Engine → Bool × Engine) → Denied → Engine → Bool × Engine
check run report e =
    let (allowed, e') = run e in
    if allowed then (true, e') else (false, record e' { denials = e'.denials ++ report ∷ [] })

module _ (w : World) where
  unfoldable pub get_compiled : Option Pointer → Engine → Option CompiledGrantSet × Engine
  unfolding load compile
  get_compiled none e = (none, e)
  get_compiled (some p) e = or_compile w p e (load e.cache p)

  -- The loops over compiled rules.
  unfoldable pub pattern_match : List Str → Str → Bool
  pattern_match patterns s = any (λ p. w.ds.matches p s) patterns

  unfoldable pub network_rule_match : NetworkRequest → CompiledNetworkRule → Bool
  unfolding port_match pattern_match
  network_rule_match req rule = pattern_match rule.hosts req.host && port_match req.port rule.ports

  unfoldable pub network_match : NetworkRequest → CompiledGrantSet → Bool
  unfolding network_rule_match
  network_match req c = any (network_rule_match req) c.network_rules

  -- filepath.Clean, the working directory, and the symbolic links; `none` is the early denial.
  unfoldable pub follow_links : Str → Str
  follow_links path =
      if w.config.resolve_symlinks
      then elim (w.eval_symlinks path) [ some resolved ↦ resolved | none ↦ path ]
      else path

  unfoldable pub resolve_path : Str → Option Str
  unfolding clean is_abs join follow_links
  resolve_path path =
      let p = clean path in
      if is_abs p
      then some (follow_links p)
      else if text_eq w.config.cwd []
      then none
      else some (follow_links (join w.config.cwd p))

  unfoldable pub fs_match : FileSystemRequest → CompiledGrantSet → Bool
  unfolding resolve_path fs_patterns pattern_match
  fs_match req c = elim (resolve_path req.path) [
    | none ↦ false
    | some path ↦ any (λ rule. pattern_match (fs_patterns req.operation rule) path) c.fs_rules
  ]

  unfoldable pub env_match : EnvironmentRequest → CompiledGrantSet → Bool
  unfolding pattern_match
  env_match req c = pattern_match c.env req.variable

  unfoldable pub exec_match : ExecCapabilityRequest → CompiledGrantSet → Bool
  unfolding pattern_match clean
  exec_match req c = pattern_match c.exec (clean req.command)

  unfoldable pub kv_rule_match : KeyValueRequest → CompiledKvRule → Bool
  unfolding op_allowed pattern_match
  kv_rule_match req rule = op_allowed rule.op req.operation && pattern_match rule.keys req.key

  unfoldable pub kv_match : KeyValueRequest → CompiledGrantSet → Bool
  unfolding kv_rule_match
  kv_match req c = any (kv_rule_match req) c.kv_rules

  -- The frame that the five `Evaluate` functions share: nil grants are denied.
  unfoldable pub evaluate : (CompiledGrantSet → Bool) → Option Pointer → Engine → Bool × Engine
  unfolding get_compiled
  evaluate decide grants e =
      let (found, e') = get_compiled grants e in
      (elim found [ none ↦ false | some c ↦ decide c ], e')

  unfoldable pub evaluate_network : NetworkRequest → Option Pointer → Engine → Bool × Engine
  unfolding evaluate network_match
  evaluate_network req = evaluate (network_match req)

  unfoldable pub evaluate_file_system : FileSystemRequest → Option Pointer → Engine → Bool × Engine
  unfolding evaluate fs_match
  evaluate_file_system req = evaluate (fs_match req)

  unfoldable pub evaluate_environment : EnvironmentRequest → Option Pointer → Engine → Bool × Engine
  unfolding evaluate env_match
  evaluate_environment req = evaluate (env_match req)

  unfoldable pub evaluate_exec : ExecCapabilityRequest → Option Pointer → Engine → Bool × Engine
  unfolding evaluate exec_match
  evaluate_exec req = evaluate (exec_match req)

  unfoldable pub evaluate_key_value : KeyValueRequest → Option Pointer → Engine → Bool × Engine
  unfolding evaluate kv_match
  evaluate_key_value req = evaluate (kv_match req)

  unfoldable pub check_network : NetworkRequest → Option Pointer → Engine → Bool × Engine
  unfolding check evaluate_network
  check_network req grants = check (evaluate_network req grants) (network req)

  unfoldable pub check_file_system : FileSystemRequest → Option Pointer → Engine → Bool × Engine
  unfolding check evaluate_file_system
  check_file_system req grants = check (evaluate_file_system req grants) (fs req)

  unfoldable pub check_environment : EnvironmentRequest → Option Pointer → Engine → Bool × Engine
  unfolding check evaluate_environment
  check_environment req grants = check (evaluate_environment req grants) (env req)

  unfoldable pub check_exec : ExecCapabilityRequest → Option Pointer → Engine → Bool × Engine
  unfolding check evaluate_exec
  check_exec req grants = check (evaluate_exec req grants) (exec req)

  unfoldable pub check_key_value : KeyValueRequest → Option Pointer → Engine → Bool × Engine
  unfolding check evaluate_key_value
  check_key_value req grants = check (evaluate_key_value req grants) (kv req)
