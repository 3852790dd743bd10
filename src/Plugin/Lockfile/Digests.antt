-- ===== src/Plugin/Lockfile/Digests.antt =====
-- The invariant of a lockfile: every entry has a digest.
use mathlib.Core.Path.{subst}
use reglet_hostlib.Base.{ℕ, ◌≡◌, refl, ◌≢◌, ◌↔◌, none, [], ◌∷◌, arith, All, inl, inr, Bool-cases}
use reglet_hostlib.Base.Text.{Str, text_eq, text_eq_iff}
use reglet_hostlib.Base.Map.{Map, insert, All-insert}
use reglet_hostlib.Plugin.Lockfile.{
  PluginLock, Lockfile, ok, new_lockfile, add_plugin, add_profile, check_digests, validate,
  plugin_count, profile_count,
}

abbrev pub HasDigest : Str × PluginLock → Type 0
HasDigest (name, lock) = lock.digest ≢ []

pub record HasDigests (l : Lockfile) : Type 0 where
  pub plugins : All HasDigest l.plugins
  pub profiles : All HasDigest l.profiles

pub new_lockfile-HasDigests : (now : ℕ) → HasDigests (new_lockfile now)
unfolding new_lockfile
new_lockfile-HasDigests now = record { plugins = tt; profiles = tt }

-- `AddPlugin`, where it succeeds, keeps every entry of the lockfile with a digest.
pub add_plugin-HasDigests :
    (name : Str) (lock : PluginLock) (l l' : Lockfile)
    → add_plugin name lock l ≡ ok l'
    → HasDigests l
    → HasDigests l'
unfolding add_plugin
add_plugin-HasDigests name lock l l' h v = elim (Bool-cases (text_eq lock.digest [])) [
  | inl e ↦ ground arith
  | inr e ↦
      let same : record l { plugins = insert name lock l.plugins } ≡ l' = ground arith in
      let digest : lock.digest ≢ [] = λ n. ground (arith, text_eq_iff lock.digest []) in
      subst HasDigests same (record {
        plugins = All-insert HasDigest name lock digest l.plugins v.plugins;
        profiles = v.profiles;
      })
]

pub add_profile-HasDigests :
    (url : Str) (lock : PluginLock) (l l' : Lockfile)
    → add_profile url lock l ≡ ok l'
    → HasDigests l
    → HasDigests l'
unfolding add_profile
add_profile-HasDigests url lock l l' h v = elim (Bool-cases (text_eq lock.digest [])) [
  | inl e ↦ ground arith
  | inr e ↦
      let same : record l { profiles = insert url lock l.profiles } ≡ l' = ground arith in
      let digest : lock.digest ≢ [] = λ n. ground (arith, text_eq_iff lock.digest []) in
      subst HasDigests same (record {
        plugins = v.plugins;
        profiles = All-insert HasDigest url lock digest l.profiles v.profiles;
      })
]

check_digests_sound : (m : Map PluginLock) → check_digests m ≡ none → All HasDigest m
unfolding check_digests
check_digests_sound [] h = tt
check_digests_sound ((name, lock) ∷ m) h = elim (Bool-cases (text_eq lock.digest [])) [
  | inl e ↦ ground arith
  | inr e ↦ (λ n. ground (arith, text_eq_iff lock.digest []), check_digests_sound m (ground arith))
]

check_digests_complete : (m : Map PluginLock) → All HasDigest m → check_digests m ≡ none
unfolding check_digests
check_digests_complete [] h = refl
check_digests_complete ((name, lock) ∷ m) (n, h) =
    ground (arith, check_digests_complete m h, text_eq_iff lock.digest [])

-- Nothing is locked.
abbrev pub IsEmpty : Lockfile → Type 0
IsEmpty l = (plugin_count l ≡ 0) × (profile_count l ≡ 0)

validate_parts :
    (l : Lockfile)
    → (validate l ≡ none) ↔ (
        (check_digests l.plugins ≡ none)
        × (check_digests l.profiles ≡ none)
        × (l.generated ≡ 0 → IsEmpty l))
unfolding validate
validate_parts l = ground arith

-- `Validate` passes a lockfile exactly if every entry has a digest, and it is dated unless it is
-- empty.
pub validate_iff :
    (l : Lockfile) → (validate l ≡ none) ↔ (HasDigests l × (l.generated ≡ 0 → IsEmpty l))
validate_iff l =
    let (to, from) = validate_parts l in
    (
      λ h.
          let (p, q, dated) = to h in
          (
            record {
              plugins = check_digests_sound l.plugins p;
              profiles = check_digests_sound l.profiles q;
            },
            dated,
          ),
      λ (v, dated). from (
        check_digests_complete l.plugins v.plugins,
        check_digests_complete l.profiles v.profiles,
        dated,
      ),
    )
