-- ===== src/ExecSecurity/Environment.antt =====
-- Which environment variables `SanitizeEnv` lets through.
use mathlib.Core.Path.{subst}
use reglet_hostlib.Base.{
  ◌≡◌, refl, ◌↔◌, ◌⊎◌, inl, inr, or_iff, true, Option, List, [], ◌∷◌, ◌++◌, arith, Any, any_iff,
  Bool-cases, Option-cases,
}
use reglet_hostlib.Base.Text.{Str, has_prefix, one_of_iff, cut, cut_sound, cut-append, Lacks}
use reglet_hostlib.ExecSecurity.{
  blocked_prefixes, blocked_names, gated_names, to_upper, is_always_blocked_env, CapabilityGetter,
  has_capability, keeps_key, keeps_env, sanitize_env,
}

-- A name, in upper case, that is never let through.
abbrev pub Blocked : Str → Type 0
Blocked key = Any (λ p. has_prefix key p ≡ true) blocked_prefixes ⊎ Any (λ n. n ≡ key) blocked_names

-- A name, in upper case, that takes a capability.
abbrev pub Gated : Str → Type 0
Gated key = Any (λ n. n ≡ key) gated_names

-- What lets a variable through: it is a name, "=" and a value, the name is not blocked, and the
-- plugin has the capability that it takes.
pub record Passes (unicode : Str → Str) (getter : Option CapabilityGetter) (plugin e : Str)
    : Type 0 where
  pub key : Str
  pub value : Str
  pub entry : e ≡ key ++ b'=' ∷ value
  pub first : Lacks b'=' key
  pub unblocked : ¬ Blocked (to_upper unicode key)
  pub granted :
      Gated (to_upper unicode key) → has_capability getter plugin (to_upper unicode key) ≡ true

Blocked-iff : (key : Str) → (is_always_blocked_env key ≡ true) ↔ Blocked key
unfolding is_always_blocked_env
Blocked-iff key =
    or_iff _ _ (any_iff (has_prefix key) _ (λ p. (λ h. h, λ h. h)) blocked_prefixes)
      (one_of_iff blocked_names key)

-- A step of a filter, for an element that passes and for one that does not.
module _ {ℓ} {A S E P : Type ℓ} (rest : S ↔ (E × P)) where
  kept_iff : (A → P) → (A ⊎ S) ↔ ((A ⊎ E) × P)
  kept_iff passes = (
    elim [ inl a ↦ (inl a, passes a) | inr s ↦ (inr (rest.0 s).0, (rest.0 s).1) ],
    λ (ae, p). elim ae [ inl a ↦ inl a | inr e ↦ inr (rest.1 (e, p)) ],
  )

  dropped_iff : (A → P → ⊥) → S ↔ ((A ⊎ E) × P)
  dropped_iff fails = (
    λ s. (inr (rest.0 s).0, (rest.0 s).1),
    λ (ae, p). elim ae [ inl a ↦ absurd (fails a p) | inr e ↦ rest.1 (e, p) ],
  )

module _ (unicode : Str → Str) (getter : Option CapabilityGetter) (plugin : Str) where
  keeps_key_iff :
      (key : Str)
      → (keeps_key getter plugin key ≡ true)
        ↔ ((¬ Blocked key) × (Gated key → has_capability getter plugin key ≡ true))
  keeps_key_iff key = ground (arith, Blocked-iff key, one_of_iff gated_names key)

  keeps_env_sound :
      (e : Str) → keeps_env unicode getter plugin e ≡ true → Passes unicode getter plugin e
  unfolding keeps_env
  keeps_env_sound e h = elim (Option-cases (cut b'=' e)) [
    | inl n ↦ absurd (ground arith)
    | inr ((key, value), n) ↦
        let (entry, first) = cut_sound b'=' e key value n in
        let kept : keeps_key getter plugin (to_upper unicode key) ≡ true = ground arith in
        let (unblocked, granted) = (keeps_key_iff (to_upper unicode key)).0 kept in
        record {
          key = key;
          value = value;
          entry = entry;
          first = first;
          unblocked = unblocked;
          granted = granted;
        }
  ]

  keeps_env_complete :
      (e : Str) → Passes unicode getter plugin e → keeps_env unicode getter plugin e ≡ true
  unfolding keeps_env
  keeps_env_complete e p =
      rw (p.entry, keeps_env, cut-append b'=' p.key p.value p.first)
        ((keeps_key_iff (to_upper unicode p.key)).1 (p.unblocked, p.granted))

  -- `SanitizeEnv` lets through exactly the variables of the list that have the form NAME=value,
  -- whose name in upper case is not blocked, and whose capability the plugin has where the name
  -- takes one; a name holds no "=".
  pub sanitize_env_iff :
      (env : List Str) (e : Str)
      → Any (λ d. d ≡ e) (sanitize_env unicode getter plugin env)
        ↔ (Any (λ d. d ≡ e) env × Passes unicode getter plugin e)
  unfolding sanitize_env
  sanitize_env_iff [] e = ground arith
  sanitize_env_iff (d ∷ env) e = elim (Bool-cases (keeps_env unicode getter plugin d)) [
    | inl k ↦ rw k (
        kept_iff (sanitize_env_iff env e)
          (λ same. subst (Passes unicode getter plugin) same (keeps_env_sound d k)))
    | inr k ↦
        rw k (dropped_iff (sanitize_env_iff env e) (λ same p. cc (k, same, keeps_env_complete e p)))
  ]

  -- Their order is kept.
  pub sanitize_env-append :
      (xs ys : List Str)
      → sanitize_env unicode getter plugin (xs ++ ys)
        ≡ sanitize_env unicode getter plugin xs ++ sanitize_env unicode getter plugin ys
  unfolding sanitize_env
  sanitize_env-append [] ys = refl
  sanitize_env-append (e ∷ xs) ys = ground (arith, sanitize_env-append xs ys)
