-- ===== src/CapabilityChecker/Checks.antt =====
-- What the checks of the capability checker decide, and what they keep.
use mathlib.Core.Path.{subst}
use reglet_hostlib.Base.{
  ◌≡◌, refl, ◌↔◌, inl, inr, Bool, true, false, Option, none, some, Any, Bool-cases,
}
use reglet_hostlib.Base.Text.{Str, codes}
use reglet_hostlib.Base.Int.{ℤ}
use reglet_hostlib.Grants.{
  GrantSet, NetworkRequest, FileSystemRequest, EnvironmentRequest, ExecCapabilityRequest,
}
use reglet_hostlib.Policy.Engine.{World, Engine, Pointer, evaluate_network, network_match}
use reglet_hostlib.Policy.Cache.{IsCoherent, evaluate_lem, evaluate-IsCoherent}
use reglet_hostlib.Policy.Filepath.{clean}
use reglet_hostlib.Policy.Compile.{rules_of, Hits, AllowsNetwork, AllowsFile, network_match_iff}
use reglet_hostlib.Policy.Decisions.{network_decision, fs_decision, env_decision, exec_decision}
use reglet_hostlib.CapabilityChecker.{
  Checker, Checking, Pattern, grants_of, handle_deny, answered, ask, loud, check_network_capability,
  check_network_connection, check_file_system_capability, check_environment_capability,
  check_exec_capability, allows_private_network, loopback_request, probe_private,
}

-- The plugin has grants, and they allow what is asked for.
abbrev pub GrantedBy : World → Option Pointer → (GrantSet → Type 0) → Type 0
GrantedBy w g Allows = (p : Pointer) × (g ≡ some p) × Allows (w.heap p)

-- No error is returned exactly if the request is granted; the cache stays coherent and the grants
-- stay as they are.
pub record Judged (w : World) (c : Checker) (Granted : Type 0) (r : Checking) : Type 0 where
  pub answer : (r.0 ≡ none) ↔ Granted
  pub coherent : IsCoherent w r.1.policy
  pub same_grants : r.1.granted ≡ c.granted

module _ (w : World) (plugin kind : Str) (pattern : Pattern) (message : Str) where
  deny-Judged :
      (c : Checker) (Granted : Type 0)
      → IsCoherent w c.policy
      → (Granted → ⊥)
      → Judged w c Granted (handle_deny plugin kind pattern message c)
  unfolding handle_deny
  deny-Judged c Granted coherent fails = elim (Bool-cases c.has_handler) [
    | inl e ↦ simp e (record {
      answer = (λ h. cc h, λ g. absurd (fails g));
      coherent = record { at = coherent.at };
      same_grants = refl;
    })
    | inr e ↦ simp e (record {
      answer = (λ h. cc h, λ g. absurd (fails g));
      coherent = coherent;
      same_grants = refl;
    })
  ]

  answered-Judged :
      (c : Checker) (Granted : Type 0) (r : Bool × Engine)
      → (r.0 ≡ true) ↔ Granted
      → IsCoherent w r.1
      → Judged w c Granted (answered plugin kind pattern message c r)
  answered-Judged c Granted (true, e) iff coherent = record {
    answer = (λ h. iff.0 refl, λ g. refl);
    coherent = coherent;
    same_grants = refl;
  }
  answered-Judged c Granted (false, e) iff coherent =
      let j = deny-Judged (record c { policy = e }) Granted coherent (λ g. cc (iff.1 g)) in
      record { answer = j.answer; coherent = j.coherent; same_grants = j.same_grants }

-- Under the plugin's grants, a run that decides `Allows` makes a check that decides it.
module _ (w : World) (run : Pointer → Engine → Bool × Engine) (Allows : GrantSet → Type 0) where
  abbrev Runs : Type 0
  Runs =
      (p : Pointer) (e : Engine)
      → IsCoherent w e
      → (((run p e).0 ≡ true) ↔ Allows (w.heap p)) × IsCoherent w (run p e).1

  ask-Judged :
      (plugin kind : Str) (pattern : Pattern) (message : Str) (c : Checker) (g : Option Pointer)
      → Runs
      → IsCoherent w c.policy
      → Judged w c (GrantedBy w g Allows) (ask run plugin kind pattern message c g)
  ask-Judged plugin kind pattern message c none runs coherent =
      deny-Judged w plugin kind pattern (codes "no capabilities granted") c
        (GrantedBy w none Allows) coherent (λ (p, e, a). cc e)
  ask-Judged plugin kind pattern message c (some p) runs coherent =
      let (iff, kept) = runs p c.policy coherent in
      answered-Judged w plugin kind pattern message c (GrantedBy w (some p) Allows) (run p c.policy)
        (
          λ h. (p, refl, iff.0 h),
          λ (q, e, a). let same : q ≡ p = cc e in iff.1 (subst (λ r. Allows (w.heap r)) same a),
        )
        kept

-- What the grant sets allow.
abbrev pub NetworkAllowed : World → NetworkRequest → GrantSet → Type 0
NetworkAllowed w req g = Any (AllowsNetwork w req) (rules_of g.network)

abbrev pub EnvAllowed : World → Str → GrantSet → Type 0
EnvAllowed w variable g = Any (Hits w variable) (rules_of g.env)

abbrev pub ExecAllowed : World → Str → GrantSet → Type 0
ExecAllowed w command g = Any (Hits w (clean command)) (rules_of g.exec)

evaluate_network_iff :
    (w : World) (req : NetworkRequest) (p : Pointer) (e : Engine)
    → IsCoherent w e
    → (((evaluate_network w req (some p) e).0 ≡ true) ↔ NetworkAllowed w req (w.heap p))
      × IsCoherent w (evaluate_network w req (some p) e).1
unfolding evaluate_network
evaluate_network_iff w req p e k = (
  rw (evaluate_lem w (network_match w req) p e k) (network_match_iff w req (w.heap p)),
  evaluate-IsCoherent w (network_match w req) p e k,
)

loud_iff :
    (w : World) (req : NetworkRequest) (p : Pointer) (r : Bool × Engine) (Allowed : Type 0)
    → ((r.0 ≡ true) ↔ Allowed) × IsCoherent w r.1
    → (((loud w req p r).0 ≡ true) ↔ Allowed) × IsCoherent w (loud w req p r).1
loud_iff w req p (true, e) Allowed (iff, k) = (iff, k)
loud_iff w req p (false, e) Allowed (iff, k) = (iff, (network_decision w p e k req).coherent)

module _ (w : World) (plugin : Str) (c : Checker) (coherent : IsCoherent w c.policy) where
  pub check_network-Judged :
      (req : NetworkRequest)
      → Judged w c
          (GrantedBy w (grants_of plugin c) (NetworkAllowed w req))
          (check_network_capability w plugin req c)
  unfolding check_network_capability
  check_network-Judged req =
      ask-Judged w _ (NetworkAllowed w req) plugin _ _ _ c _
        (λ p e k. let d = network_decision w p e k req in (d.answer, d.coherent)) coherent

  pub check_connection-Judged :
      (host : Str) (port : ℤ)
      → Judged w c
          (GrantedBy w
            (grants_of plugin c)
            (NetworkAllowed w (record { host = host; port = port })))
          (check_network_connection w plugin host port c)
  unfolding check_network_connection
  check_connection-Judged host port =
      let req : NetworkRequest = record { host = host; port = port } in
      ask-Judged w _ (NetworkAllowed w req) plugin _ _ _ c _
        (λ p e k. loud_iff w req p _ _ (evaluate_network_iff w req p e k)) coherent

  pub check_file_system-Judged :
      (req : FileSystemRequest)
      → Judged w c
          (GrantedBy w (grants_of plugin c) (AllowsFile w req))
          (check_file_system_capability w plugin req c)
  unfolding check_file_system_capability
  check_file_system-Judged req =
      ask-Judged w _ (AllowsFile w req) plugin _ _ _ c _
        (λ p e k. let d = fs_decision w p e k req in (d.answer, d.coherent)) coherent

  pub check_environment-Judged :
      (req : EnvironmentRequest)
      → Judged w c
          (GrantedBy w (grants_of plugin c) (EnvAllowed w req.variable))
          (check_environment_capability w plugin req c)
  unfolding check_environment_capability
  check_environment-Judged req =
      ask-Judged w _ (EnvAllowed w req.variable) plugin _ _ _ c _
        (λ p e k. let d = env_decision w p e k req in (d.answer, d.coherent)) coherent

  pub check_exec-Judged :
      (req : ExecCapabilityRequest)
      → Judged w c
          (GrantedBy w (grants_of plugin c) (ExecAllowed w req.command))
          (check_exec_capability w plugin req c)
  unfolding check_exec_capability
  check_exec-Judged req =
      ask-Judged w _ (ExecAllowed w req.command) plugin _ _ _ c _
        (λ p e k. let d = exec_decision w p e k req in (d.answer, d.coherent)) coherent

-- What `AllowsPrivateNetwork` answers, and what it keeps.
pub record Probed (w : World) (g : Option Pointer) (c : Checker) (r : Bool × Checker) : Type 0 where
  pub answer : (r.0 ≡ true) ↔ GrantedBy w g (NetworkAllowed w loopback_request)
  pub coherent : IsCoherent w r.1.policy
  pub same_grants : r.1.granted ≡ c.granted

probe_private-Probed :
    (w : World) (c : Checker) (g : Option Pointer)
    → IsCoherent w c.policy
    → Probed w g c (probe_private w c g)
probe_private-Probed w c none coherent = record {
  answer = (λ h. cc h, λ (p, e, a). cc e);
  coherent = coherent;
  same_grants = refl;
}
probe_private-Probed w c (some p) coherent =
    let (iff, kept) = evaluate_network_iff w loopback_request p c.policy coherent in
    record {
      answer = (
        λ h. (p, refl, iff.0 h),
        λ (q, e, a).
            let same : q ≡ p = cc e in
            iff.1 (subst (λ r. NetworkAllowed w loopback_request (w.heap r)) same a),
      );
      coherent = kept;
      same_grants = refl;
    }

-- `AllowsPrivateNetwork`, on a coherent cache, answers whether the plugin has grants that allow the
-- loopback address on port 0; the cache stays coherent and the grants as they are.
pub allows_private-Probed :
    (w : World) (plugin : Str) (c : Checker)
    → IsCoherent w c.policy
    → Probed w (grants_of plugin c) c (allows_private_network w plugin c)
unfolding allows_private_network
allows_private-Probed w plugin c coherent = probe_private-Probed w c (grants_of plugin c) coherent
