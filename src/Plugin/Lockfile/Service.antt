-- ===== src/Plugin/Lockfile/Service.antt =====
-- plugin/lockfile_service.go, plugin/filesystem/lockfile.go and lockfile_repo.go. The lockfile that
-- lies on disk is the state; the YAML coding is taken to be faithful, and the errors of the
-- operating system are inputs.
use reglet_hostlib.Base.{ℕ, Bool, true, false, Option, none, some, List, [], ◌∷◌, if◌then◌else◌}
use reglet_hostlib.Base.Text.{Str, codes, text_eq}
use reglet_hostlib.Base.Map.{Map, map_values}
use reglet_hostlib.Plugin.Spec.{PluginSpec, parse_plugin_declaration}
use reglet_hostlib.Plugin.Lockfile.{
  PluginLock, ProfileLock, Lockfile, Result, ok, err, load_failed, save_failed, bad_declaration,
  new_lockfile, add_plugin, get_plugin, add_profile, get_profile, validate, ◌>>=◌,
}

-- The YAML structures of plugin/filesystem/lockfile.go.
pub record PluginLockYaml : Type 0 where
  pub fetched : ℕ
  pub modified : ℕ
  pub requested : Str
  pub resolved : Str
  pub source : Str
  pub digest : Str

pub record LockfileYaml : Type 0 where
  pub generated : ℕ
  pub plugins : Map PluginLockYaml
  pub version : ℕ

abbrev pub lock_to_entity : PluginLockYaml → PluginLock
lock_to_entity y = record {
  fetched = y.fetched;
  modified = y.modified;
  requested = y.requested;
  resolved = y.resolved;
  source = y.source;
  digest = y.digest;
}

abbrev pub lock_from_entity : PluginLock → PluginLockYaml
lock_from_entity l = record {
  fetched = l.fetched;
  modified = l.modified;
  requested = l.requested;
  resolved = l.resolved;
  source = l.source;
  digest = l.digest;
}

unfoldable pub to_entity : LockfileYaml → Lockfile
unfolding map_values
to_entity y = record {
  generated = y.generated;
  plugins = map_values lock_to_entity y.plugins;
  profiles = [];
  version = y.version;
}

unfoldable pub from_entity : Lockfile → LockfileYaml
unfolding map_values
from_entity l = record {
  generated = l.generated;
  plugins = map_values lock_from_entity l.plugins;
  version = l.version;
}

-- The file at the lockfile's path: absent, or what was encoded last.
abbrev pub Disk : Type 0
Disk = Option LockfileYaml

-- What the operating system answers: whether the file can be read and written, and the time.
pub record Machine : Type 0 where
  pub readable : Bool
  pub writable : Bool
  pub now : ℕ

abbrev pub decode : Disk → Result (Option Lockfile)
decode none = ok none
decode (some y) = elim (validate (to_entity y)) [ some e ↦ err e | none ↦ ok (some (to_entity y)) ]

-- FileLockfileRepository.Load; `none` where there is no file.
unfoldable pub load : Machine → Disk → Result (Option Lockfile)
load m disk = if m.readable then decode disk else err load_failed

-- FileLockfileRepository.Save
unfoldable pub save : Machine → Lockfile → Disk → Result Disk
save m l disk = if m.writable then ok (some (from_entity l)) else err save_failed

abbrev pub or_new : Machine → Option Lockfile → Lockfile
or_new m none = new_lockfile m.now
or_new m (some l) = l

abbrev pub constraint_of : PluginSpec → Str
constraint_of spec = if text_eq spec.version [] then codes "latest" else spec.version

-- Whether the lockfile has the declared version already.
abbrev pub is_locked : Str → Option PluginLock → Bool
is_locked constraint none = false
is_locked constraint (some locked) = text_eq locked.requested constraint

abbrev pub new_lock : Machine → PluginSpec → PluginLock
new_lock m spec = record {
  fetched = m.now;
  modified = 0;
  requested = constraint_of spec;
  resolved = constraint_of spec;
  source = spec.source;
  digest = codes "sha256:placeholder";
}

-- One round of the loop of ResolvePlugins: the lockfile, and whether it was changed.
abbrev pub resolve_spec : Machine → PluginSpec → Lockfile × Bool → Result (Lockfile × Bool)
resolve_spec m spec (l, updated) =
    if is_locked (constraint_of spec) (get_plugin l spec.name)
    then ok (l, updated)
    else (do l' ← add_plugin spec.name (new_lock m spec) l; ok (l', true))

unfoldable pub resolve_one : Machine → Str → Lockfile × Bool → Result (Lockfile × Bool)
resolve_one m declaration state = elim (parse_plugin_declaration declaration) [
  | none ↦ err bad_declaration
  | some spec ↦ resolve_spec m spec state
]

unfoldable pub resolve_each : Machine → List Str → Lockfile × Bool → Result (Lockfile × Bool)
resolve_each m [] state = ok state
resolve_each m (d ∷ ds) state = resolve_one m d state >>= λ next. resolve_each m ds next

abbrev pub save_updated : Machine → Disk → Lockfile × Bool → Result (Lockfile × Disk)
save_updated m disk (l, false) = ok (l, disk)
save_updated m disk (l, true) =
    let dated = record l { generated = m.now } in do disk' ← save m dated disk; ok (dated, disk')

-- ResolvePlugins: the lockfile that is returned, and the file after the call.
unfoldable pub resolve_plugins : Machine → List Str → Disk → Result (Lockfile × Disk)
resolve_plugins m declarations disk = do
  found ← load m disk
  state ← resolve_each m declarations (or_new m found, false)
  save_updated m disk state

abbrev pub profile_lock : Machine → Str → Str → Str → ProfileLock
profile_lock m url version digest = record {
  fetched = m.now;
  modified = 0;
  requested = url;
  resolved = version;
  source = url;
  digest = digest;
}

-- LockProfile
unfoldable pub lock_profile : Machine → Str → Str → Str → Disk → Result Disk
lock_profile m url version digest disk = do
  found ← load m disk
  locked ← add_profile url (profile_lock m url version digest) (or_new m found)
  save m (record locked { generated = m.now; version = 2 }) disk

-- GetLockedProfile
abbrev pub profile_in : Str → Option Lockfile → Option ProfileLock
profile_in url none = none
profile_in url (some l) = get_profile l url

unfoldable pub get_locked_profile : Machine → Str → Disk → Result (Option ProfileLock)
get_locked_profile m url disk = do found ← load m disk; ok (profile_in url found)
