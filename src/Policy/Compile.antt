-- ===== src/Policy/Compile.antt =====
-- What compiled rules decide, read off the grant set itself.
use reglet_hostlib.Base.{
  ◌≡◌, sym, ◌∙◌, ◌↔◌, ◌⊎◌, inl, inr, true, false, Option, none, some, List, [], ◌∷◌, arith, any,
  any_iff, any-map, and_iff, Bool-cases, Option-cases, Any,
}
use mathlib.Core.Path.{subst}
use reglet_hostlib.Base.Text.{Str, codes, text_eq, text_eq_iff}
use reglet_hostlib.Grants.{
  GrantSet, NetworkRule, FsRule, KvRule, NetworkRequest, FileSystemRequest, EnvironmentRequest,
  ExecCapabilityRequest, KeyValueRequest,
}
use reglet_hostlib.Policy.{
  CompiledGrantSet, compile_patterns, compile_network_rule, compile_network_rules, compile_fs_rules,
  compile_fs_rule, compile_env, compile_exec, compile_kv_rules, compile_kv_rule, compile,
}
use reglet_hostlib.Policy.Filepath.{clean}
use reglet_hostlib.Policy.Engine.{
  World, pattern_match, network_rule_match, network_match, fs_patterns, fs_match, env_match,
  exec_match, op_allowed, kv_rule_match, kv_match, resolve_path,
}
use reglet_hostlib.Policy.Ports.{Permits, compile_ports_iff}

-- The rules of a capability that may be nil.
abbrev pub rules_of {ℓ} : {A : Type ℓ} → Option (List A) → List A
rules_of none = []
rules_of (some rules) = rules

module _ (w : World) where
  -- A pattern counts if it is valid and matches.
  abbrev pub Hits : Str → Str → Type 0
  Hits s pattern = (w.ds.valid pattern ≡ true) × (w.ds.matches pattern s ≡ true)

  patterns_iff :
      (s : Str) (patterns : List Str)
      → (pattern_match w (compile_patterns w.ds patterns) s ≡ true) ↔ Any (Hits s) patterns
  unfolding pattern_match compile_patterns any
  patterns_iff s [] = ground arith
  patterns_iff s (p ∷ ps) = ground (arith, patterns_iff s ps)

  -- A rule allows a request if both a host pattern and a port string of it do.
  abbrev pub AllowsNetwork : NetworkRequest → NetworkRule → Type 0
  AllowsNetwork req rule =
      Any (Hits req.host) rule.hosts × Any (λ spec. Permits spec req.port) rule.ports

  network_rule_iff :
      (req : NetworkRequest) (rule : NetworkRule)
      → (network_rule_match w req (compile_network_rule w.ds rule) ≡ true) ↔ AllowsNetwork req rule
  unfolding network_rule_match compile_network_rule
  network_rule_iff req rule =
      and_iff _ _ (patterns_iff req.host rule.hosts) (compile_ports_iff req.port rule.ports)

  network_rules_iff :
      (req : NetworkRequest) (rules : Option (List NetworkRule))
      → (any (network_rule_match w req) (compile_network_rules w.ds rules) ≡ true)
        ↔ Any (AllowsNetwork req) (rules_of rules)
  unfolding compile_network_rules
  network_rules_iff req none = unfold any in (λ h. cc, λ h. absurd h)
  network_rules_iff req (some rules) = rw any-map (any_iff _ _ (network_rule_iff req) rules)

  pub network_match_iff :
      (req : NetworkRequest) (g : GrantSet)
      → (network_match w req (compile w.ds g) ≡ true) ↔ Any (AllowsNetwork req) (rules_of g.network)
  unfolding network_match compile
  network_match_iff req g = network_rules_iff req g.network

  -- The patterns of a file system rule that an operation is checked against.
  abbrev pub AllowsPath : Str → Str → FsRule → Type 0
  AllowsPath operation path rule =
      ((operation ≡ codes "read") × Any (Hits path) rule.read)
      ⊎ ((operation ≡ codes "write") × Any (Hits path) rule.write)

  fs_rule_iff :
      (operation path : Str) (rule : FsRule)
      → (pattern_match w (fs_patterns operation (compile_fs_rule w.ds rule)) path ≡ true)
        ↔ AllowsPath operation path rule
  unfolding fs_patterns compile_fs_rule
  fs_rule_iff operation path rule = elim (Bool-cases (text_eq operation (codes "read"))) [
    | inl e ↦ ground (arith, text_eq_iff operation (codes "read"), patterns_iff path rule.read)
    | inr e ↦ elim (Bool-cases (text_eq operation (codes "write"))) [
      | inl e' ↦ ground (
        arith,
        text_eq_iff operation (codes "read"),
        text_eq_iff operation (codes "write"),
        patterns_iff path rule.write,
      )
      | inr e' ↦
          rw (e, e')
            (unfold pattern_match any in
              ground (
                arith,
                text_eq_iff operation (codes "read"),
                text_eq_iff operation (codes "write"),
              ))
    ]
  ]

  fs_rules_iff :
      (operation path : Str) (rules : Option (List FsRule))
      → (any
            (λ rule. pattern_match w (fs_patterns operation rule) path)
            (compile_fs_rules w.ds rules)
          ≡ true)
        ↔ Any (AllowsPath operation path) (rules_of rules)
  unfolding compile_fs_rules
  fs_rules_iff operation path none = unfold any in (λ h. cc, λ h. absurd h)
  fs_rules_iff operation path (some rules) =
      rw any-map (any_iff _ _ (fs_rule_iff operation path) rules)

  env_iff :
      (s : Str) (variables : Option (List Str))
      → (pattern_match w (compile_env w.ds variables) s ≡ true) ↔ Any (Hits s) (rules_of variables)
  unfolding compile_env
  env_iff s none = unfold pattern_match any in (λ h. cc, λ h. absurd h)
  env_iff s (some variables) = patterns_iff s variables

  exec_iff :
      (s : Str) (commands : Option (List Str))
      → (pattern_match w (compile_exec w.ds commands) s ≡ true) ↔ Any (Hits s) (rules_of commands)
  unfolding compile_exec
  exec_iff s none = unfold pattern_match any in (λ h. cc, λ h. absurd h)
  exec_iff s (some commands) = patterns_iff s commands

  pub env_match_iff :
      (req : EnvironmentRequest) (g : GrantSet)
      → (env_match w req (compile w.ds g) ≡ true) ↔ Any (Hits req.variable) (rules_of g.env)
  unfolding env_match compile
  env_match_iff req g = env_iff req.variable g.env

  pub exec_match_iff :
      (req : ExecCapabilityRequest) (g : GrantSet)
      → (exec_match w req (compile w.ds g) ≡ true)
        ↔ Any (Hits (clean req.command)) (rules_of g.exec)
  unfolding exec_match compile
  exec_match_iff req g = exec_iff (clean req.command) g.exec

  -- The operations that a key-value rule covers.
  abbrev pub Covers : Str → Str → Type 0
  Covers rule_op operation =
      (rule_op ≡ codes "read-write")
      ⊎ ((operation ≡ rule_op) × ((rule_op ≡ codes "read") ⊎ (rule_op ≡ codes "write")))

  op_allowed_iff :
      (rule_op operation : Str) → (op_allowed rule_op operation ≡ true) ↔ Covers rule_op operation
  unfolding op_allowed
  op_allowed_iff rule_op operation = ground (
    arith,
    text_eq_iff rule_op (codes "read-write"),
    text_eq_iff rule_op (codes "read"),
    text_eq_iff rule_op (codes "write"),
    text_eq_iff operation (codes "read"),
    text_eq_iff operation (codes "write"),
  )

  abbrev pub AllowsKey : KeyValueRequest → KvRule → Type 0
  AllowsKey req rule = Covers rule.operation req.operation × Any (Hits req.key) rule.keys

  kv_rule_iff :
      (req : KeyValueRequest) (rule : KvRule)
      → (kv_rule_match w req (compile_kv_rule w.ds rule) ≡ true) ↔ AllowsKey req rule
  unfolding kv_rule_match compile_kv_rule
  kv_rule_iff req rule =
      and_iff _ _ (op_allowed_iff rule.operation req.operation) (patterns_iff req.key rule.keys)

  kv_rules_iff :
      (req : KeyValueRequest) (rules : Option (List KvRule))
      → (any (kv_rule_match w req) (compile_kv_rules w.ds rules) ≡ true)
        ↔ Any (AllowsKey req) (rules_of rules)
  unfolding compile_kv_rules
  kv_rules_iff req none = unfold any in (λ h. cc, λ h. absurd h)
  kv_rules_iff req (some rules) = rw any-map (any_iff _ _ (kv_rule_iff req) rules)

  pub kv_match_iff :
      (req : KeyValueRequest) (g : GrantSet)
      → (kv_match w req (compile w.ds g) ≡ true) ↔ Any (AllowsKey req) (rules_of g.kv)
  unfolding kv_match compile
  kv_match_iff req g = kv_rules_iff req g.kv

  -- A path is allowed if it resolves, and a rule has a pattern for it.
  abbrev pub AllowsFile : FileSystemRequest → GrantSet → Type 0
  AllowsFile req g =
      (path : Str) × (resolve_path w req.path ≡ some path)
      × Any (AllowsPath req.operation path) (rules_of g.fs)

  fs_match-none :
      (req : FileSystemRequest) (c : CompiledGrantSet)
      → resolve_path w req.path ≡ none
      → fs_match w req c ≡ false
  unfolding fs_match
  fs_match-none req c e = rw (e, fs_match)

  fs_match-some :
      (req : FileSystemRequest) (c : CompiledGrantSet) {path : Str}
      → resolve_path w req.path ≡ some path
      → fs_match w req c
        ≡ any (λ rule. pattern_match w (fs_patterns req.operation rule) path) c.fs_rules
  unfolding fs_match
  fs_match-some req c e = rw (e, fs_match)

  pub fs_match_iff :
      (req : FileSystemRequest) (g : GrantSet)
      → (fs_match w req (compile w.ds g) ≡ true) ↔ AllowsFile req g
  unfolding compile
  fs_match_iff req g = elim (Option-cases (resolve_path w req.path)) [
    | inl e ↦ (λ h. cc (fs_match-none req (compile w.ds g) e), λ found. cc (found.1))
    | inr (path, e) ↦
        let same = fs_match-some req (compile w.ds g) e in
        let (to, from) = fs_rules_iff req.operation path g.fs in
        (
          λ h. (path, e, to (sym same ∙ h)),
          λ found.
              let same_path : found.0 ≡ path = cc (found.1, e) in
              same
              ∙ from
                  (subst (λ q. Any (AllowsPath req.operation q) (rules_of g.fs)) same_path found.2),
        )
  ]
