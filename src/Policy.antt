-- ===== src/Policy.antt =====
-- policy/policy.go: how a grant set is compiled to the rules that requests are checked against.
pub mod Filepath
pub mod Engine
pub mod Ports
pub mod Compile
pub mod Cache
pub mod Decisions
pub mod Paths
pub mod Examples
use reglet_hostlib.Base.{
  Bool, true, false, Option, none, some, List, [], ◌∷◌, ◌++◌, map, if◌then◌else◌,
}
use reglet_hostlib.Base.Text.{Str, codes, text_eq, contains_byte, split, trim_space}
use reglet_hostlib.Base.Int.{ℤ, pos, atoi}
use reglet_hostlib.Grants.{GrantSet, NetworkRule, FsRule, KvRule}

-- github.com/bmatcuk/doublestar: `valid` is ValidatePattern, `matches` the first result of Match.
pub record Doublestar : Type 0 where
  pub valid : Str → Bool
  pub matches : Str → Str → Bool

pub record PortRange : Type 0 where
  pub min : ℤ
  pub max : ℤ

pub record CompiledNetworkRule : Type 0 where
  pub hosts : List Str
  pub ports : List PortRange

pub record CompiledFsRule : Type 0 where
  pub read : List Str
  pub write : List Str

pub record CompiledKvRule : Type 0 where
  pub op : Str
  pub keys : List Str

pub record CompiledGrantSet : Type 0 where
  pub network_rules : List CompiledNetworkRule
  pub fs_rules : List CompiledFsRule
  pub env : List Str
  pub exec : List Str
  pub kv_rules : List CompiledKvRule

-- One round of the loop of `compilePorts`; the error of Atoi is dropped, as the code drops it.
abbrev dashed_range : List Str → List PortRange
dashed_range (lo ∷ hi ∷ []) =
    record { min = (atoi (trim_space lo)).0; max = (atoi (trim_space hi)).0 } ∷ []
dashed_range _ = []

unfoldable pub compile_port : Str → List PortRange
compile_port port_str =
    if text_eq port_str (codes "*")
    then record { min = pos 0; max = pos 65535 } ∷ []
    else if contains_byte b'-' port_str
    then dashed_range (split b'-' port_str)
    else record { min = (atoi (trim_space port_str)).0; max = (atoi (trim_space port_str)).0 } ∷ []

unfoldable pub compile_ports : List Str → List PortRange
unfolding compile_port
compile_ports [] = []
compile_ports (p ∷ ps) = compile_port p ++ compile_ports ps

module _ (ds : Doublestar) where
  unfoldable pub compile_patterns : List Str → List Str
  compile_patterns [] = []
  compile_patterns (p ∷ ps) =
      let rest = compile_patterns ps in if ds.valid p then p ∷ rest else rest

  unfoldable pub compile_network_rule : NetworkRule → CompiledNetworkRule
  unfolding compile_patterns compile_ports
  compile_network_rule rule = record {
    hosts = compile_patterns rule.hosts;
    ports = compile_ports rule.ports;
  }

  unfoldable pub compile_network_rules : Option (List NetworkRule) → List CompiledNetworkRule
  unfolding compile_network_rule
  compile_network_rules none = []
  compile_network_rules (some rules) = map compile_network_rule rules

  unfoldable pub compile_fs_rule : FsRule → CompiledFsRule
  unfolding compile_patterns
  compile_fs_rule rule = record {
    read = compile_patterns rule.read;
    write = compile_patterns rule.write;
  }

  unfoldable pub compile_fs_rules : Option (List FsRule) → List CompiledFsRule
  unfolding compile_fs_rule
  compile_fs_rules none = []
  compile_fs_rules (some rules) = map compile_fs_rule rules

  unfoldable pub compile_env : Option (List Str) → List Str
  unfolding compile_patterns
  compile_env none = []
  compile_env (some variables) = compile_patterns variables

  unfoldable pub compile_exec : Option (List Str) → List Str
  unfolding compile_patterns
  compile_exec none = []
  compile_exec (some commands) = compile_patterns commands

  unfoldable pub compile_kv_rule : KvRule → CompiledKvRule
  unfolding compile_patterns
  compile_kv_rule rule = record { op = rule.operation; keys = compile_patterns rule.keys }

  unfoldable pub compile_kv_rules : Option (List KvRule) → List CompiledKvRule
  unfolding compile_kv_rule
  compile_kv_rules none = []
  compile_kv_rules (some rules) = map compile_kv_rule rules

  -- The value that `getCompiled` builds on a miss.
  unfoldable pub compile : GrantSet → CompiledGrantSet
  unfolding compile_network_rules compile_fs_rules compile_env compile_exec compile_kv_rules
  compile grants = record {
    network_rules = compile_network_rules grants.network;
    fs_rules = compile_fs_rules grants.fs;
    env = compile_env grants.env;
    exec = compile_exec grants.exec;
    kv_rules = compile_kv_rules grants.kv;
  }
