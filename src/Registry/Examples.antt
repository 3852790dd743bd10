-- ===== src/Registry/Examples.antt =====
-- Tests of the registry, and its theorems at concrete inputs.
use reglet_hostlib.Base.{◌≡◌, refl, ◌↔◌, none, List, [], ◌∷◌, ◌++◌}
use reglet_hostlib.Base.Text.{Str, codes}
use reglet_hostlib.Base.Map.{lookup, insert, map_values}
use reglet_hostlib.Registry.{
  RegistryOption, with_handler, with_bundle, with_middleware, HandlerRegistry, Context,
  ErrorResponse, ByteHandler, Middleware, new_registry, invoke, built, failed, duplicate_name,
  wrap_each, wrap, sort_strings, apply_options, apply_option, add_handler, add_bundle,
}
use reglet_hostlib.Registry.Building.{entries, chain, HasGoodNames}
use reglet_hostlib.Registry.Dispatch.{dispatched, new_registry_iff, invoke_lem}

-- Handlers that answer a text, and middleware that marks it.
abbrev answer : Str → ByteHandler Str
answer s ctx payload = s ++ payload

abbrev mark : Str → Middleware (ByteHandler Str)
mark s next ctx payload = s ++ next ctx payload

abbrev respond : ErrorResponse → Str
respond e = e.error

abbrev options : List (RegistryOption (ByteHandler Str))
options =
    with_handler (codes "b") (answer (codes "b"))
    ∷ with_middleware (mark (codes "1") ∷ [])
    ∷ with_bundle ((codes "a", answer (codes "a")) ∷ [])
    ∷ with_middleware (mark (codes "2") ∷ [])
    ∷ []

abbrev registry : HandlerRegistry (ByteHandler Str)
registry = record {
  handlers =
      (codes "b", λ ctx payload. codes "1" ++ codes "2" ++ codes "b" ++ payload)
      ∷ (codes "a", λ ctx payload. codes "1" ++ codes "2" ++ codes "a" ++ payload)
      ∷ [];
  names = codes "a" ∷ codes "b" ∷ [];
  middleware = mark (codes "1") ∷ mark (codes "2") ∷ [];
}

build : new_registry options ≡ built registry
unfolding new_registry apply_options apply_option add_handler add_bundle lookup insert wrap
    wrap_each sort_strings map_values
build = refl

abbrev context : Context
context = record { function = none; plugin = none; allow_private = none }

twice :
    new_registry (with_handler (codes "a") (answer []) ∷ with_handler (codes "a") (answer []) ∷ [])
    ≡ failed (duplicate_name (codes "a"))
unfolding new_registry apply_options apply_option add_handler lookup insert
twice = refl

new_registry_iff_example :
    ((r : HandlerRegistry (ByteHandler Str)) × (new_registry options ≡ built r))
    ↔ HasGoodNames (entries options)
new_registry_iff_example = new_registry_iff options

invoke_lem_example :
    invoke respond registry context (codes "a") (codes "x")
    ≡ dispatched respond
        (chain options)
        context
        (codes "a")
        (codes "x")
        (lookup (codes "a") (entries options))
invoke_lem_example = invoke_lem respond options registry context (codes "a") (codes "x") build
