-- ===== src/Plugin/Lockfile/Profiles.antt =====
-- Profiles on disk: what `LockProfile` writes and `GetLockedProfile` reads.
use mathlib.Core.Path.{subst}
use reglet_hostlib.Base.{
  ◌≡◌, refl, ap, ◌≢◌, true, Option, none, some, [], ◌∷◌, arith, inl, inr, Option-cases,
}
use reglet_hostlib.Base.Text.{Str}
use reglet_hostlib.Base.Map.{Map, lookup, map_values}
use reglet_hostlib.Plugin.Lockfile.{
  PluginLock, Lockfile, ok, get_profile, validate, add_profile, >>=-eq-ok,
}
use reglet_hostlib.Plugin.Lockfile.Service.{
  Machine, Disk, to_entity, from_entity, load, save, lock_profile, get_locked_profile, or_new,
  profile_lock, lock_to_entity, lock_from_entity,
}
use reglet_hostlib.Plugin.Lockfile.Digests.{
  HasDigests, new_lockfile-HasDigests, add_profile-HasDigests, validate_iff,
}

map_values-entity :
    (plugins : Map PluginLock)
    → map_values lock_to_entity (map_values lock_from_entity plugins) ≡ plugins
unfolding map_values
map_values-entity [] = refl
map_values-entity ((k, lock) ∷ rest) = ap (λ r. (k, lock) ∷ r) (map_values-entity rest)

-- The plugins of a lockfile survive the YAML structures.
pub plugins-to_entity-from_entity : (l : Lockfile) → (to_entity (from_entity l)).plugins ≡ l.plugins
unfolding to_entity from_entity
plugins-to_entity-from_entity l = map_values-entity l.plugins

-- What is read, or made anew, has a digest for every entry.
load-HasDigests :
    (m : Machine) (disk : Disk) (found : Option Lockfile)
    → load m disk ≡ ok found
    → HasDigests (or_new m found)
load-HasDigests m disk none h = new_lockfile-HasDigests m.now
load-HasDigests m none (some l) h = unfold load in ground arith
load-HasDigests m (some y) (some l) h = elim (Option-cases (validate (to_entity y))) [
  | inl e ↦
      let same : to_entity y ≡ l = unfold load in ground arith in
      subst HasDigests same ((validate_iff (to_entity y)).0 e).0
  | inr (error, e) ↦ unfold load in ground arith
]

-- A saved lockfile that passes the validation is read again.
load-saved :
    (m : Machine) (l : Lockfile)
    → m.readable ≡ true
    → HasDigests l
    → l.generated ≢ 0
    → load m (some (from_entity l)) ≡ ok (some (to_entity (from_entity l)))
load-saved m l r v dated =
    let passes : validate (to_entity (from_entity l)) ≡ none =
      (validate_iff (to_entity (from_entity l))).1 (
        record {
          plugins = rw plugins-to_entity-from_entity v.plugins;
          profiles = unfold to_entity in tt;
        },
        λ z. absurd (dated (unfold to_entity from_entity in z)),
      ) in
    unfold load in rw r (ground arith)

saved-is_some :
    (m : Machine) (l : Lockfile) (disk disk' : Disk)
    → save m l disk ≡ ok disk'
    → disk' ≡ some (from_entity l)
unfolding save
saved-is_some m l disk disk' h = ground arith

-- A profile that `LockProfile` locked and saved, at a time that is not zero, is not there when
-- `GetLockedProfile` reads the file again, where it can be read: the lookup finds no lock.
pub lock_profile_lost :
    (m later : Machine) (url version digest : Str) (disk disk' : Disk)
    → lock_profile m url version digest disk ≡ ok disk'
    → later.readable ≡ true
    → m.now ≢ 0
    → get_locked_profile later url disk' ≡ ok none
unfolding lock_profile
lock_profile_lost m later url version digest disk disk' h r n =
    let (found, read, rest) = >>=-eq-ok (load m disk) _ h in
    let (locked, added, saved) =
      >>=-eq-ok (add_profile url (profile_lock m url version digest) (or_new m found)) _ rest in
    let dated = record locked { generated = m.now; version = 2 } in
    let valid =
      add_profile-HasDigests url (profile_lock m url version digest) (or_new m found) locked added
        (load-HasDigests m disk found read) in
    rw (saved-is_some m dated disk disk' saved) (
      unfold get_locked_profile in
      rw
        (load-saved later dated r (record { plugins = valid.plugins; profiles = valid.profiles }) n)
        (unfold get_profile to_entity lookup in refl))
