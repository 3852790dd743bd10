-- ===== src/Policy/Decisions.antt =====
-- What each `Check` of the engine decides, read off the grant set that the pointer holds.
use reglet_hostlib.Base.{◌≡◌, ◌↔◌, Bool, true, some, [], ◌∷◌, ◌++◌, Any, if◌then◌else◌}
use reglet_hostlib.Grants.{
  NetworkRequest, FileSystemRequest, EnvironmentRequest, ExecCapabilityRequest, KeyValueRequest,
}
use reglet_hostlib.Policy.Filepath.{clean}
use reglet_hostlib.Policy.Engine.{
  World, Engine, Pointer, Denied, network, fs, env, exec, kv, check_network, check_file_system,
  check_environment, check_exec, check_key_value,
}
use reglet_hostlib.Policy.Cache.{IsCoherent, Checked, check_lem}
use reglet_hostlib.Policy.Compile.{
  rules_of, Hits, AllowsNetwork, AllowsFile, AllowsKey, network_match_iff, fs_match_iff,
  env_match_iff, exec_match_iff, kv_match_iff,
}

-- What a check decides and does: it allows exactly if `Allowed`, its cache stays coherent, and it
-- adds the denial to the handler's calls exactly if it denies.
pub record Decides (w : World) (e : Engine) (Allowed : Type 0) (report : Denied) (r : Bool × Engine)
    : Type 0 where
  pub answer : (r.0 ≡ true) ↔ Allowed
  pub coherent : IsCoherent w r.1
  pub reported : r.1.denials ≡ (if r.0 then e.denials else e.denials ++ report ∷ [])

decides :
    (w : World) (e : Engine) (Allowed : Type 0) (decided : Bool) (report : Denied)
    (r : Bool × Engine)
    → (decided ≡ true) ↔ Allowed
    → Checked w decided report e r
    → Decides w e Allowed report r
decides w e Allowed decided report r iff c = record {
  answer = rw c.answer iff;
  coherent = c.coherent;
  reported = rw c.answer c.reported;
}

module _ (w : World) (p : Pointer) (e : Engine) (coherent : IsCoherent w e) where
  -- `CheckNetwork` on a coherent cache allows exactly if one rule of the grant set has both a valid
  -- host pattern that matches the host and a port string that permits the port; the cache stays
  -- coherent, and the denial handler is called exactly on a denial.
  pub network_decision :
      (req : NetworkRequest)
      → Decides w e
          (Any (AllowsNetwork w req) (rules_of (w.heap p).network))
          (network req)
          (check_network w req (some p) e)
  unfolding check_network
  network_decision req =
      decides w e _ _ _ _ (network_match_iff w req (w.heap p)) (check_lem w _ _ p e coherent)

  -- `CheckFileSystem` on a coherent cache allows exactly if the path resolves and a rule has, for
  -- the operation, a valid pattern that matches the resolved path; the cache stays coherent, and a
  -- denial is reported.
  pub fs_decision :
      (req : FileSystemRequest)
      → Decides w e (AllowsFile w req (w.heap p)) (fs req) (check_file_system w req (some p) e)
  unfolding check_file_system
  fs_decision req =
      decides w e _ _ _ _ (fs_match_iff w req (w.heap p)) (check_lem w _ _ p e coherent)

  -- `CheckEnvironment` on a coherent cache allows exactly if a valid pattern of the grant set
  -- matches the variable; the cache stays coherent, and a denial is reported.
  pub env_decision :
      (req : EnvironmentRequest)
      → Decides w e
          (Any (Hits w req.variable) (rules_of (w.heap p).env))
          (env req)
          (check_environment w req (some p) e)
  unfolding check_environment
  env_decision req =
      decides w e _ _ _ _ (env_match_iff w req (w.heap p)) (check_lem w _ _ p e coherent)

  -- `CheckExec` on a coherent cache allows exactly if a valid pattern of the grant set matches the
  -- cleaned command path; the cache stays coherent, and a denial is reported.
  pub exec_decision :
      (req : ExecCapabilityRequest)
      → Decides w e
          (Any (Hits w (clean req.command)) (rules_of (w.heap p).exec))
          (exec req)
          (check_exec w req (some p) e)
  unfolding check_exec
  exec_decision req =
      decides w e _ _ _ _ (exec_match_iff w req (w.heap p)) (check_lem w _ _ p e coherent)

  -- `CheckKeyValue` on a coherent cache allows exactly if one rule covers the operation and has a
  -- valid pattern that matches the key; the cache stays coherent, and a denial is reported.
  pub kv_decision :
      (req : KeyValueRequest)
      → Decides w e
          (Any (AllowsKey w req) (rules_of (w.heap p).kv))
          (kv req)
          (check_key_value w req (some p) e)
  unfolding check_key_value
  kv_decision req =
      decides w e _ _ _ _ (kv_match_iff w req (w.heap p)) (check_lem w _ _ p e coherent)
