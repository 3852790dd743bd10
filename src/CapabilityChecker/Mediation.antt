-- ===== src/CapabilityChecker/Mediation.antt =====
-- What the capability middleware lets through: the handler below runs exactly if what the call asks
-- for is granted to the plugin.
use mathlib.Core.Path.{subst}
use reglet_hostlib.Base.{◌≡◌, refl, sym, ap, ◌∙◌, ◌↔◌, Bool, true, none, some}
use reglet_hostlib.Base.Text.{Str, text_eq}
use reglet_hostlib.Base.Map.{lookup}
use reglet_hostlib.Policy.Engine.{World}
use reglet_hostlib.Policy.Cache.{IsCoherent}
use reglet_hostlib.Registry.{Context, ByteHandler, ErrorResponse}
use reglet_hostlib.CapabilityChecker.{
  Checker, grants_of, or_nil, allows_private_network, loopback_request,
}
use reglet_hostlib.CapabilityChecker.Checks.{GrantedBy, NetworkAllowed, allows_private-Probed}
use reglet_hostlib.CapabilityChecker.Middleware.{
  Decoders, Verdict, judge_call, function_name, with_private, Stateful, proceed, enforce,
  capability_middleware,
}
use reglet_hostlib.CapabilityChecker.Asked.{asked, AskGranted, Judges, judge_call-Fair}

-- The state at which the handler below is called, or at which the call is refused: the cache is
-- coherent and the grants are those of the start.
pub record Kept (w : World) (c c' : Checker) : Type 0 where
  pub coherent : IsCoherent w c'.policy
  pub same_grants : c'.granted ≡ c.granted

-- What becomes of a call: it is granted and goes on to `next`, in a context that is marked with
-- whether private addresses are allowed; or it is not granted, and is answered by an error.
pub data Mediated {ℓ} {A : Type ℓ} (w : World) (respond : ErrorResponse → A) (c : Checker)
    (next : Bool → Stateful A) (Private Granted : Type 0) (r : A × Checker) : Type ℓ where
  passed :
      (allow : Bool) (c' : Checker)
      → Granted
      → (allow ≡ true) ↔ Private
      → Kept w c c'
      → r ≡ next allow c'
      → Mediated w respond c next Private Granted r
  refused :
      (e : ErrorResponse) (c' : Checker)
      → (Granted → ⊥)
      → Kept w c c'
      → r ≡ (respond e, c')
      → Mediated w respond c next Private Granted r

module _ {ℓ} {A : Type ℓ} (w : World) (respond : ErrorResponse → A) (c : Checker)
    (next : Bool → Stateful A) (Private Granted : Type 0) where
  proceed-Mediated :
      (d : Decoders) (allow : Bool) (probed : Checker) (v : Verdict)
      → (allow ≡ true) ↔ Private
      → probed.granted ≡ c.granted
      → Judges w probed Granted v
      → Mediated w respond c next Private Granted (proceed w d respond (next allow) v)
  proceed-Mediated d allow probed (none, c') iff same j =
      passed allow c' (j.answer.0 refl) iff
        (record { coherent = j.coherent; same_grants = j.same_grants ∙ same }) refl
  proceed-Mediated d allow probed (some e, c') iff same j =
      refused e c' (λ g. cc (j.answer.1 g))
        (record { coherent = j.coherent; same_grants = j.same_grants ∙ same }) refl

named_call {ℓ} :
    {A : Type ℓ} (w : World) (d : Decoders) (respond : ErrorResponse → A)
    (next : ByteHandler (Stateful A)) (ctx : Context) (plugin payload : Str) (c : Checker)
    → ctx.plugin ≡ some plugin
    → capability_middleware w d respond next ctx payload c
      ≡ enforce w d respond plugin next ctx payload (allows_private_network w plugin c)
unfolding capability_middleware
named_call w d respond next ctx plugin payload c named = rw named refl

-- A call of no named plugin goes on unchecked, as it is.
pub unnamed_call {ℓ} :
    {A : Type ℓ} (w : World) (d : Decoders) (respond : ErrorResponse → A)
    (next : ByteHandler (Stateful A)) (ctx : Context) (payload : Str) (c : Checker)
    → ctx.plugin ≡ none
    → capability_middleware w d respond next ctx payload c ≡ next ctx payload c
unfolding capability_middleware
unnamed_call w d respond next ctx payload c unnamed = rw unnamed refl

-- On a coherent cache a call of a named plugin goes on to the handler below, in a context marked
-- with whether private addresses are allowed, if what its payload asks for is granted to the
-- plugin, and else it is answered by an error; either way the cache stays coherent and the grants
-- as they are. A payload that does not decode, and any other function, asks for nothing.
pub capability_middleware_lem {ℓ} :
    {A : Type ℓ} (w : World) (d : Decoders) (respond : ErrorResponse → A)
    (next : ByteHandler (Stateful A)) (ctx : Context) (plugin payload : Str) (c : Checker)
    → ctx.plugin ≡ some plugin
    → IsCoherent w c.policy
    → Mediated w respond c
        (λ allow. next (with_private allow ctx) payload)
        (GrantedBy w (grants_of plugin c) (NetworkAllowed w loopback_request))
        (AskGranted w (grants_of plugin c) (asked d (function_name ctx) payload))
        (capability_middleware w d respond next ctx payload c)
capability_middleware_lem {A = A} w d respond next ctx plugin payload c named coherent =
    let p = allows_private-Probed w plugin c coherent in
    let probed = (allows_private_network w plugin c).1 in
    let same_lookup : grants_of plugin probed ≡ grants_of plugin c =
      ap (λ m. or_nil (lookup plugin m)) p.same_grants in
    let fair =
      subst
        (λ g.
          Judges w probed (AskGranted w g (asked d (function_name ctx) payload))
            (judge_call w d plugin (function_name ctx) payload probed))
        same_lookup (judge_call-Fair w d plugin probed p.coherent (function_name ctx) payload) in
    subst
      (Mediated w respond c (λ allow. next (with_private allow ctx) payload)
        (GrantedBy w (grants_of plugin c) (NetworkAllowed w loopback_request))
        (AskGranted w (grants_of plugin c) (asked d (function_name ctx) payload)))
      (sym (named_call w d respond next ctx plugin payload c named))
      (proceed-Mediated w respond c (λ allow. next (with_private allow ctx) payload) _ _ d
        (allows_private_network w plugin c).0 probed _ p.answer p.same_grants fair)

-- The context that the capability middleware passes on has lost the function name: a second
-- capability middleware, of any checker, that gets it with the name of a plugin checks nothing and
-- calls the handler below, whatever the payload asks for.
pub second_middleware-unchecked {ℓ} :
    {A : Type ℓ} (w : World) (d : Decoders) (respond : ErrorResponse → A)
    (next : ByteHandler (Stateful A)) (ctx : Context) (plugin payload : Str) (c : Checker)
    (allow : Bool)
    → ctx.plugin ≡ some plugin
    → (again : Bool) × (c' : Checker) × (capability_middleware w d respond next
          (with_private allow ctx)
          payload
          c
        ≡ next (with_private again ctx) payload c')
second_middleware-unchecked w d respond next ctx plugin payload c allow named = (
  (allows_private_network w plugin c).0,
  (allows_private_network w plugin c).1,
  named_call w d respond next (with_private allow ctx) plugin payload c named
      ∙ unfold judge_call text_eq in refl,
)
