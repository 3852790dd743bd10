-- ===== src/Plugin/Lockfile/Examples.antt =====
-- The theorems on the lockfile at concrete inputs.
use reglet_hostlib.Base.{
  ◌≡◌, refl, ap, sym, ◌∙◌, true, false, Option, none, some, List, [], ◌∷◌, All,
}
use reglet_hostlib.Base.Text.{Str, codes}
use reglet_hostlib.Base.Map.{lookup, insert}
use reglet_hostlib.Plugin.Spec.{PluginSpec, parse_plugin_declaration}
use reglet_hostlib.Plugin.Lockfile.{Lockfile, ok, new_lockfile, add_plugin, get_plugin, add_profile}
use reglet_hostlib.Plugin.Lockfile.Service.{
  Machine, new_lock, resolve_each, resolve_plugins, lock_profile, get_locked_profile, from_entity,
  load, save, profile_lock, resolve_one,
}
use reglet_hostlib.Plugin.Lockfile.Profiles.{lock_profile_lost}
use reglet_hostlib.Plugin.Lockfile.Steps.{Satisfies}
use reglet_hostlib.Plugin.Lockfile.Resolution.{
  IsNot, HasDistinctNames, StartsFrom, resolve_plugins_lem,
}

abbrev machine : Machine
machine = record { readable = true; writable = true; now = 5 }

abbrev declarations : List Str
declarations = codes "file@1.2.0" ∷ codes "dns" ∷ []

abbrev file_spec : PluginSpec
file_spec = record {
  name = codes "file";
  source = codes "file";
  version = codes "1.2.0";
  digest = [];
  verify = false;
}

abbrev dns_spec : PluginSpec
dns_spec = record {
  name = codes "dns";
  source = codes "dns";
  version = [];
  digest = [];
  verify = false;
}

abbrev resolved : Lockfile
resolved = record {
  generated = 5;
  plugins =
      (codes "file", new_lock machine file_spec) ∷ (codes "dns", new_lock machine dns_spec) ∷ [];
  profiles = [];
  version = 1;
}

run : resolve_plugins machine declarations none ≡ ok (resolved, some (from_entity resolved))
unfolding resolve_plugins load resolve_each resolve_one parse_plugin_declaration get_plugin lookup
    new_lockfile add_plugin insert save
run = refl

abbrev name_of : Option PluginSpec → Str
name_of none = []
name_of (some spec) = spec.name

file_parses : parse_plugin_declaration (codes "file@1.2.0") ≡ some file_spec
unfolding parse_plugin_declaration
file_parses = refl

dns_parses : parse_plugin_declaration (codes "dns") ≡ some dns_spec
unfolding parse_plugin_declaration
dns_parses = refl

distinct : HasDistinctNames declarations
distinct = (
  (
    λ s t e e' same.
        let f : codes "file" ≡ s.name = ap name_of (sym file_parses ∙ e) in
        let g : codes "dns" ≡ t.name = ap name_of (sym dns_parses ∙ e') in
        let apart : codes "dns" ≡ codes "file" = g ∙ same ∙ sym f in cc apart,
    tt,
  ),
  (tt, tt),
)

resolve_plugins_lem_example :
    (l : Lockfile) × StartsFrom machine none l
    × All (Satisfies resolved) declarations
    × ((name : Str) → All (IsNot name) declarations → get_plugin resolved name ≡ get_plugin l name)
    × ((later : Machine) → resolve_each later declarations (resolved, false) ≡ ok (resolved, false))
resolve_plugins_lem_example =
    resolve_plugins_lem machine declarations none (some (from_entity resolved)) resolved run
      distinct

abbrev sha : Str
sha = codes "sha256:1"

abbrev with_file : Lockfile
with_file = record (new_lockfile 5) {
  plugins = (codes "file", record (new_lock machine file_spec) { digest = sha }) ∷ [];
}

added :
    add_plugin
      (codes "file")
      (record (new_lock machine file_spec) { digest = sha })
      (new_lockfile 5)
    ≡ ok with_file
unfolding add_plugin insert new_lockfile
added = refl

abbrev profile_url : Str
profile_url = codes "https://a.io/p"

abbrev with_profile : Lockfile
with_profile = record {
  generated = 5;
  plugins = [];
  profiles = (profile_url, profile_lock machine profile_url (codes "1.0") sha) ∷ [];
  version = 2;
}

profile_locked :
    lock_profile machine profile_url (codes "1.0") sha none ≡ ok (some (from_entity with_profile))
unfolding lock_profile load new_lockfile add_profile insert save
profile_locked = refl

lock_profile_lost_example :
    get_locked_profile machine profile_url (some (from_entity with_profile)) ≡ ok none
lock_profile_lost_example =
    lock_profile_lost machine machine profile_url (codes "1.0") sha none
      (some (from_entity with_profile)) profile_locked refl (λ h. cc h)
