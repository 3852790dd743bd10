-- ===== src/Plugin/Service/Examples.antt =====
-- A service over the cache under /c, and a registry with one plugin.
use reglet_hostlib.Base.{◌↔◌, ◌≡◌, refl, inl, inr, true, false, none, some, [], ◌∷◌}
use reglet_hostlib.Base.Text.{codes, text_eq, split, contains_byte, cut, has_prefix, last_or}
use reglet_hostlib.Base.Map.{lookup, insert}
use reglet_hostlib.Policy.Filepath.{is_abs, clean, join}
use reglet_hostlib.Plugin.Values.{
  new_digest, parse_digest, parse_plugin_reference, is_embedded, show_reference, show_digest,
}
use reglet_hostlib.Plugin.Repository.{
  plugin_not_found, err, plugin_path, find, store, store_at, load_metadata, load_digest,
}
use reglet_hostlib.Plugin.Repository.Examples.{
  root_dir, name_json, good_machine, file_ref, file_plugin, other_file, stored_disk, file_path,
  store_lem,
}
use reglet_hostlib.Plugin.Service.{
  PluginRegistry, PluginArtifact, IntegrityVerifier, PluginService, PluginSpec, cached,
  from_registry, returned, panicked, to_digest, load_plugin, load_resolved, resolve,
  verify_integrity, publish_plugin,
}
use reglet_hostlib.Plugin.Service.Loading.{IsLoaded, load_plugin_iff}
use reglet_hostlib.Plugin.Service.Cache.{fs_repository, with_registry, load_plugin-Cached}
use reglet_hostlib.Plugin.Service.Tampered.{load_plugin-rewritten}

abbrev file_artifact : PluginArtifact
file_artifact = record { plugin = file_plugin; wasm = codes "wasm" }

abbrev one_registry : PluginRegistry
one_registry = record { pull = λ ref. some file_artifact; push = λ artifact. true }

abbrev no_registry : PluginRegistry
no_registry = record { pull = λ ref. none; push = λ artifact. false }

abbrev accepting : IntegrityVerifier
accepting = record { verify_signature = λ ref. true; sign = λ ref. true }

abbrev signing_service : PluginService
signing_service = record {
  chain = cached ∷ from_registry ∷ [];
  registry = one_registry;
  integrity_verifier = some accepting;
  require_signing = true;
}

abbrev file_spec : PluginSpec
file_spec = record { name = codes "g/o/r/f:1"; digest = codes "sha256:ab" }

spec_lem : parse_plugin_reference file_spec.name ≡ inr file_ref
unfolding parse_plugin_reference split contains_byte last_or
spec_lem = refl

digest_lem : to_digest file_spec ≡ inr file_plugin.digest
unfolding to_digest parse_digest new_digest text_eq cut
digest_lem = refl

miss_lem : find name_json root_dir (other_file ∷ []) file_ref ≡ err (plugin_not_found file_ref)
unfolding find plugin_path show_reference is_embedded text_eq is_abs clean join has_prefix lookup
miss_lem = refl

load_plugin-Cached_example :
    (load_plugin
        (fs_repository name_json good_machine root_dir)
        signing_service
        file_spec
        (other_file ∷ [])
      ≡ (stored_disk, returned file_path))
    × (lookup file_path stored_disk ≡ some (codes "wasm"))
    × ((later : PluginRegistry)
        → load_plugin
            (fs_repository name_json good_machine root_dir)
            (with_registry later signing_service)
            file_spec
            stored_disk
          ≡ (stored_disk, returned file_path))
load_plugin-Cached_example =
    load_plugin-Cached name_json good_machine root_dir signing_service file_spec file_ref
      file_plugin.digest file_artifact (other_file ∷ []) stored_disk file_path []
      (unfold is_abs in refl) refl spec_lem digest_lem miss_lem refl refl (inl refl) refl
      (λ n. refl) (λ t. (accepting, refl, refl)) store_lem

load_plugin-rewritten_example :
    load_plugin
      (fs_repository name_json good_machine root_dir)
      (with_registry no_registry signing_service)
      file_spec
      (insert file_path (codes "evil") stored_disk)
    ≡ (insert file_path (codes "evil") stored_disk, returned file_path)
load_plugin-rewritten_example =
    load_plugin-rewritten name_json good_machine root_dir
      (with_registry no_registry signing_service) file_spec stored_disk (codes "evil") file_path
      (from_registry ∷ []) (unfold is_abs in refl) refl (load_plugin-Cached_example.2 no_registry)

load_plugin_iff_example :
    (load_plugin
        (fs_repository name_json good_machine root_dir)
        signing_service
        file_spec
        (other_file ∷ [])
      ≡ (stored_disk, returned file_path))
    ↔ IsLoaded
        (fs_repository name_json good_machine root_dir)
        signing_service
        file_spec
        (other_file ∷ [])
        stored_disk
        file_path
load_plugin_iff_example =
    load_plugin_iff (fs_repository name_json good_machine root_dir) signing_service file_spec
      (other_file ∷ []) stored_disk file_path

-- A digest with no value pins nothing.
unpinned_test :
    load_plugin
      (fs_repository name_json good_machine root_dir)
      signing_service
      (record { name = codes "g/o/r/f:1"; digest = codes "sha256:" })
      (other_file ∷ [])
    ≡ (stored_disk, returned file_path)
unfolding load_plugin load_resolved resolve verify_integrity to_digest parse_digest new_digest cut
    parse_plugin_reference split contains_byte last_or find plugin_path show_reference is_embedded
    text_eq is_abs clean join has_prefix lookup store store_at insert show_digest load_metadata
    load_digest
unpinned_test = refl

service_tests :
    (publish_plugin signing_service file_artifact true ≡ returned tt)
    × (publish_plugin
          (record {
            chain = [];
            registry = one_registry;
            integrity_verifier = none;
            require_signing = false;
          })
          file_artifact
          true
        ≡ panicked)
unfolding publish_plugin
service_tests = (refl, refl)
