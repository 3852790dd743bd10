-- ===== src/CapabilityChecker/Examples.antt =====
-- Tests of the capability checker, and its theorems at concrete inputs.
use reglet_hostlib.Base.{◌≡◌, refl, inl, Bool, true, none, some, [], ◌∷◌, any}
use reglet_hostlib.Base.Text.{Str, codes, text_eq, one_of, cut_last}
use reglet_hostlib.Base.Map.{lookup}
use reglet_hostlib.Grants.{GrantSet, empty_grants}
use reglet_hostlib.Policy.{Doublestar}
use reglet_hostlib.Policy.Engine.{World, load, evaluate_network, check_exec, check}
use reglet_hostlib.Policy.Cache.{IsCoherent}
use reglet_hostlib.Registry.{Context, ErrorResponse, ByteHandler}
use reglet_hostlib.ExecSecurity.{
  is_dangerous_execution, detect_execution_type, is_shell_execution, get_basename,
  has_code_execution_flags, is_awk_with_blocks, has_dangerous_flags, has_suspicious_flags,
}
use reglet_hostlib.CapabilityChecker.{
  Checker, check_exec_capability, allows_private_network, grants_of, loopback_request, handle_deny,
}
use reglet_hostlib.CapabilityChecker.Checks.{GrantedBy, NetworkAllowed}
use reglet_hostlib.CapabilityChecker.Middleware.{
  Decoders, Stateful, with_private, capability_middleware, judge_call,
}
use reglet_hostlib.CapabilityChecker.Asked.{asked, AskGranted}
use reglet_hostlib.CapabilityChecker.Mediation.{
  Mediated, capability_middleware_lem, second_middleware-unchecked,
}

abbrev literal : Doublestar
literal = record { valid = λ p. true; matches = text_eq }

abbrev grants : GrantSet
grants = record empty_grants { exec = some (codes "/bin/ls" ∷ []) }

abbrev world : World
world = record {
  ds = literal;
  eval_symlinks = λ p. none;
  config = record { cwd = codes "/w"; resolve_symlinks = true };
  heap = λ p. grants;
}

-- The plugin "p" has the grants at the pointer 1.
abbrev checker : Checker
checker = record {
  policy = record { cache = []; denials = [] };
  granted = (codes "p", some 1) ∷ [];
  has_handler = true;
  denied = [];
}

checker-IsCoherent : IsCoherent world checker.policy
checker-IsCoherent = record { at = λ p c h. unfold load in cc h }

-- A payload of an exec call is the command itself.
abbrev decoders : Decoders
decoders = record {
  dns = λ s. none;
  tcp = λ s. none;
  smtp = λ s. none;
  http = λ s. some s;
  exec = λ s. some (s, []);
  parse_url = λ s. inl s;
}

abbrev context : Context
context = record {
  function = some (codes "exec_command");
  plugin = some (codes "p");
  allow_private = none;
}

-- The handler below answers the payload, and an error is answered by its message.
abbrev echo : ByteHandler (Stateful Str)
echo ctx payload c = (payload, c)

abbrev respond : ErrorResponse → Str
respond e = e.message

abbrev call : Str → Str
call payload = (capability_middleware world decoders respond echo context payload checker).0

calls :
    (call (codes "/bin/ls") ≡ codes "/bin/ls")
    × (call (codes "/bin/rm") ≡ codes "exec capability denied: /bin/rm")
unfolding capability_middleware judge_call text_eq check_exec_capability lookup
    allows_private_network check_exec evaluate_network any handle_deny is_dangerous_execution
    detect_execution_type is_shell_execution one_of get_basename cut_last has_code_execution_flags
    is_awk_with_blocks has_dangerous_flags has_suspicious_flags check
calls = (refl, refl)

capability_middleware_lem_example :
    Mediated world respond checker
      (λ allow. echo (with_private allow context) (codes "/bin/ls"))
      (GrantedBy world (grants_of (codes "p") checker) (NetworkAllowed world loopback_request))
      (AskGranted world
        (grants_of (codes "p") checker)
        (asked decoders (codes "exec_command") (codes "/bin/ls")))
      (capability_middleware world decoders respond echo context (codes "/bin/ls") checker)
capability_middleware_lem_example =
    capability_middleware_lem world decoders respond echo context (codes "p") (codes "/bin/ls")
      checker refl checker-IsCoherent

second_middleware-unchecked_example :
    (again : Bool) × (c' : Checker) × (capability_middleware world decoders respond echo
        (with_private true context)
        (codes "/bin/rm")
        checker
      ≡ echo (with_private again context) (codes "/bin/rm") c')
second_middleware-unchecked_example =
    second_middleware-unchecked world decoders respond echo context (codes "p") (codes "/bin/rm")
      checker true refl
