-- ===== src/Plugin/Lockfile.antt =====
-- plugin/entities/lockfile.go. A time is a number, and the zero time is 0. A nil map reads as an
-- empty one and is made before a write, so the two are not told apart.
pub mod Service
pub mod Digests
pub mod Steps
pub mod Resolution
pub mod Profiles
pub mod Examples
use reglet_hostlib.Base.{
  ◌≡◌, refl, ℕ, suc, Bool, true, false, ◌&&◌, ◌||◌, Option, none, some, List, [], ◌∷◌, ◌==◌, ltb,
  length, if◌then◌else◌,
}
use reglet_hostlib.Base.Text.{Str, text_eq, or_else}
use reglet_hostlib.Base.Map.{Map, lookup, insert}

pub record PluginLock : Type 0 where
  pub fetched : ℕ
  pub modified : ℕ
  pub requested : Str
  pub resolved : Str
  pub source : Str
  pub digest : Str

-- ProfileLock has the same fields.
abbrev pub ProfileLock : Type 0
ProfileLock = PluginLock

pub record Lockfile : Type 0 where
  pub generated : ℕ
  pub plugins : Map PluginLock
  pub profiles : Map ProfileLock
  pub version : ℕ

pub data LockError : Type 0 where
  digest_required : Str → LockError
  generated_required : LockError
  load_failed save_failed bad_declaration : LockError

pub data Result {ℓ} (A : Type ℓ) : Type ℓ where
  ok : A → Result A
  err : LockError → Result A

infixl 10 ◌>>=◌
abbrev pub ◌>>=◌ {ℓ κ} : {A : Type ℓ} {B : Type κ} → Result A → (A → Result B) → Result B
ok a >>= f = f a
err e >>= f = err e

unfoldable pub new_lockfile : ℕ → Lockfile
new_lockfile now = record { generated = now; plugins = []; profiles = []; version = 1 }

unfoldable pub add_plugin : Str → PluginLock → Lockfile → Result Lockfile
unfolding text_eq
add_plugin name lock l =
    if text_eq lock.digest []
    then err (digest_required name)
    else ok (record l { plugins = insert name lock l.plugins })

unfoldable pub get_plugin : Lockfile → Str → Option PluginLock
get_plugin l name = lookup name l.plugins

unfoldable pub plugin_count : Lockfile → ℕ
plugin_count l = length l.plugins

unfoldable pub add_profile : Str → ProfileLock → Lockfile → Result Lockfile
unfolding text_eq
add_profile url lock l =
    if text_eq lock.digest []
    then err (digest_required url)
    else ok (record l { profiles = insert url lock l.profiles })

unfoldable pub get_profile : Lockfile → Str → Option ProfileLock
get_profile l url = lookup url l.profiles

unfoldable pub profile_count : Lockfile → ℕ
profile_count l = length l.profiles

-- The loop of Validate over one map; `none` is the nil error.
unfoldable pub check_digests : Map PluginLock → Option LockError
unfolding text_eq
check_digests [] = none
check_digests ((name, lock) ∷ m) =
    let rest = check_digests m in
    if text_eq lock.digest [] then some (digest_required name) else rest

unfoldable pub validate : Lockfile → Option LockError
unfolding check_digests plugin_count profile_count
validate l =
    if (ltb 0 (plugin_count l) || ltb 0 (profile_count l)) && l.generated == 0
    then some generated_required
    else or_else (check_digests l.plugins) (check_digests l.profiles)

-- What a successful chain went through.
pub >>=-eq-ok {ℓ κ} :
    {A : Type ℓ} {B : Type κ} (r : Result A) (f : A → Result B) {b : B}
    → (r >>= f) ≡ ok b
    → (a : A) × (r ≡ ok a) × (f a ≡ ok b)
>>=-eq-ok (ok a) f h = (a, refl, h)
>>=-eq-ok (err e) f h = cc
