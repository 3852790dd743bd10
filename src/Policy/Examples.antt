-- ===== src/Policy/Examples.antt =====
-- Tests of the policy engine, and its theorems at concrete inputs.
use reglet_hostlib.Base.{◌≡◌, refl, true, false, none, some, [], ◌∷◌}
use reglet_hostlib.Base.Text.{codes, contains_byte, text_eq, trim_space}
use reglet_hostlib.Base.Int.{pos, atoi}
use reglet_hostlib.Grants.{GrantSet, empty_grants}
use reglet_hostlib.Policy.{Doublestar, compile_ports}
use reglet_hostlib.Policy.Filepath.{is_abs}
use reglet_hostlib.Policy.Engine.{
  World, Engine, network, fs, load, check_network, check_file_system, check_environment, check_exec,
  check_key_value, resolve_path, port_match,
}
use reglet_hostlib.Policy.Cache.{IsCoherent}
use reglet_hostlib.Policy.Compile.{rules_of, AllowsNetwork, AllowsFile}
use reglet_hostlib.Policy.Decisions.{Decides, network_decision, fs_decision}
use reglet_hostlib.Policy.Paths.{IsContained, resolve_path-IsContained}
use reglet_hostlib.Base.{any, Any, ◌↔◌}
use reglet_hostlib.Policy.Ports.{Permits, compile_ports_iff}

-- A matcher that knows literal patterns alone.
abbrev literal : Doublestar
literal = record { valid = λ p. true; matches = text_eq }

abbrev grants : GrantSet
grants = record empty_grants {
  network =
      some (record { hosts = codes "a.io" ∷ []; ports = codes "80-90" ∷ codes " 443" ∷ [] } ∷ []);
  fs = some (record { read = codes "/w/x" ∷ []; write = [] } ∷ []);
  env = some (codes "HOME" ∷ []);
  exec = some (codes "/bin/ls" ∷ []);
  kv = some (record { operation = codes "read"; keys = codes "k" ∷ [] } ∷ []);
}

abbrev world : World
world = record {
  ds = literal;
  eval_symlinks = λ p. none;
  config = record { cwd = codes "/w"; resolve_symlinks = false };
  heap = λ p. grants;
}

abbrev fresh : Engine
fresh = record { cache = []; denials = [] }

fresh-IsCoherent : IsCoherent world fresh
fresh-IsCoherent = record { at = λ p c h. unfold load in cc h }

policy : Unit {0}
unfolding check_network check_file_system check_environment check_exec check_key_value atoi text_eq
    any resolve_path contains_byte trim_space
policy = tt

decisions :
    ((check_network world (record { host = codes "a.io"; port = pos 85 }) (some 1) fresh).0 ≡ true)
    × ((check_network world (record { host = codes "a.io"; port = pos 443 }) (some 1) fresh).0
        ≡ true)
    × ((check_network world (record { host = codes "a.io"; port = pos 91 }) (some 1) fresh).0
        ≡ false)
    × ((check_network world (record { host = codes "a.io"; port = pos 85 }) none fresh).0 ≡ false)
    × ((check_file_system world
          (record { operation = codes "read"; path = codes "../w/./x" })
          (some 1)
          fresh).0
        ≡ true)
    × ((check_file_system world
          (record { operation = codes "write"; path = codes "x" })
          (some 1)
          fresh).0
        ≡ false)
    × ((check_exec world (record { command = codes "/bin/../bin/ls" }) (some 1) fresh).0 ≡ true)
    × ((check_key_value world
          (record { operation = codes "write"; key = codes "k" })
          (some 1)
          fresh).0
        ≡ false)
unfolding policy
decisions = (refl, refl, refl, refl, refl, refl, refl, refl)

network_decision_example :
    Decides world fresh
      (Any
        (AllowsNetwork world (record { host = codes "a.io"; port = pos 85 }))
        (rules_of grants.network))
      (network (record { host = codes "a.io"; port = pos 85 }))
      (check_network world (record { host = codes "a.io"; port = pos 85 }) (some 1) fresh)
network_decision_example =
    network_decision world 1 fresh fresh-IsCoherent (record { host = codes "a.io"; port = pos 85 })

fs_decision_example :
    Decides world fresh
      (AllowsFile world (record { operation = codes "read"; path = codes "x" }) grants)
      (fs (record { operation = codes "read"; path = codes "x" }))
      (check_file_system world
        (record { operation = codes "read"; path = codes "x" })
        (some 1)
        fresh)
fs_decision_example =
    fs_decision world 1 fresh fresh-IsCoherent
      (record { operation = codes "read"; path = codes "x" })

resolve_path-IsContained_example : IsContained (codes "/w/b")
resolve_path-IsContained_example =
    resolve_path-IsContained world (codes "a/../b") (codes "/w/b") refl (λ n. unfold is_abs in refl)
      (unfold policy in refl)

compile_ports_iff_example :
    (port_match (pos 85) (compile_ports (codes "80-90" ∷ codes "443" ∷ [])) ≡ true)
    ↔ Any (λ spec. Permits spec (pos 85)) (codes "80-90" ∷ codes "443" ∷ [])
compile_ports_iff_example = compile_ports_iff (pos 85) (codes "80-90" ∷ codes "443" ∷ [])
