-- ===== src/Plugin/Service/Cache.antt =====
-- The service over the repository on disk: what is loaded from the registry is loaded from the disk
-- from then on, without the registry, and whatever becomes of the binary.
use mathlib.Core.Path.{subst}
use reglet_hostlib.Base.{◌≡◌, refl, inr, true, some, List, ◌∷◌}
use reglet_hostlib.Base.Text.{Str}
use reglet_hostlib.Base.Map.{lookup}
use reglet_hostlib.Policy.Filepath.{is_abs}
use reglet_hostlib.Plugin.Values.{Digest, PluginReference, parse_plugin_reference}
use reglet_hostlib.Plugin.Values.Digests.{IsSupported}
use reglet_hostlib.Plugin.Repository.{
  PluginEntity, Json, Disk, Machine, ok, err, plugin_not_found, find, store,
}
use reglet_hostlib.Plugin.Repository.Stored.{find-store}
use reglet_hostlib.Plugin.Service.{
  PluginRepository, PluginRegistry, PluginArtifact, PluginService, PluginSpec, Resolver, cached,
  from_registry, returned, resolve, to_digest, load_plugin,
}
use reglet_hostlib.Plugin.Service.Loading.{IsPinned, IsSigned, load_plugin_iff}

-- NewFSPluginRepository, whose directory exists
abbrev pub fs_repository : Json → Machine → Str → PluginRepository Disk
fs_repository json machine root = record {
  find = find json root;
  store = λ disk plugin wasm. store json machine root plugin wasm disk;
}

pub resolve_hit :
    {S : Type 0} (repository : PluginRepository S) (registry : PluginRegistry)
    (chain : List Resolver) (ref : PluginReference) (s : S) {plugin : PluginEntity} {path : Str}
    → repository.find s ref ≡ ok (plugin, path)
    → resolve repository registry (cached ∷ chain) ref s ≡ (s, inr plugin)
unfolding resolve
resolve_hit repository registry chain ref s h = rw h refl

resolve_miss :
    {S : Type 0} (repository : PluginRepository S) (registry : PluginRegistry)
    (chain : List Resolver) (ref : PluginReference) (s after : S) (artifact : PluginArtifact)
    {path : Str}
    → repository.find s ref ≡ err (plugin_not_found ref)
    → registry.pull ref ≡ some artifact
    → repository.store s artifact.plugin artifact.wasm ≡ (after, ok path)
    → resolve repository registry (cached ∷ from_registry ∷ chain) ref s
      ≡ (after, inr artifact.plugin)
unfolding resolve
resolve_miss repository registry chain ref s after artifact miss pulls stores =
    rw (miss, pulls, stores) refl

-- A service that reaches another registry.
abbrev pub with_registry : PluginRegistry → PluginService → PluginService
with_registry registry service = record {
  chain = service.chain;
  registry = registry;
  integrity_verifier = service.integrity_verifier;
  require_signing = service.require_signing;
}

module _ (json : Json) (machine : Machine) (root : Str) (service : PluginService)
    (spec : PluginSpec) (ref : PluginReference) (expected : Digest)
    (parses : parse_plugin_reference spec.name ≡ inr ref) (digest : to_digest spec ≡ inr expected)
    (signature : IsSigned service ref) where
  -- A load from the disk.
  pub load_hit :
      (disk : Disk) {plugin : PluginEntity} {path : Str} (chain : List Resolver)
      → service.chain ≡ cached ∷ chain
      → find json root disk ref ≡ ok (plugin, path)
      → IsPinned expected plugin
      → load_plugin (fs_repository json machine root) service spec disk ≡ (disk, returned path)
  load_hit disk {plugin} {path} chain is at pinned =
      (load_plugin_iff (fs_repository json machine root) service spec disk disk path).1 (record {
        reference = ref;
        expected = expected;
        plugin = plugin;
        parses = parses;
        digest = digest;
        resolves =
            rw is
              (resolve_hit (fs_repository json machine root) service.registry chain ref disk at);
        pinned = pinned;
        signature = signature;
        located_at = (plugin, at);
      })

  -- A load from the registry.
  load_miss :
      (disk after : Disk) (artifact : PluginArtifact) (path : Str) (chain : List Resolver)
      → service.chain ≡ cached ∷ from_registry ∷ chain
      → find json root disk ref ≡ err (plugin_not_found ref)
      → service.registry.pull ref ≡ some artifact
      → store json machine root artifact.plugin artifact.wasm disk ≡ (after, ok path)
      → find json root after ref ≡ ok (artifact.plugin, path)
      → IsPinned expected artifact.plugin
      → load_plugin (fs_repository json machine root) service spec disk ≡ (after, returned path)
  load_miss disk after artifact path chain is miss pulls stores at pinned =
      (load_plugin_iff (fs_repository json machine root) service spec disk after path).1 (record {
        reference = ref;
        expected = expected;
        plugin = artifact.plugin;
        parses = parses;
        digest = digest;
        resolves = rw is (
            resolve_miss (fs_repository json machine root) service.registry chain ref disk after
              artifact miss pulls stores);
        pinned = pinned;
        signature = signature;
        located_at = (artifact.plugin, at);
      })

-- The service looks in the cache and then in the registry, and the cache is under a rooted
-- directory. When the plugin is not in the cache, the registry gives an artifact for the reference
-- which names that reference and has the pinned digest, of a supported algorithm, the coding keeps
-- its metadata, the verifier accepts it where that is required, and `Store` completes: then
-- `LoadPlugin` returns the path of the binary, the disk holds the binary of the artifact there, and
-- from then on `LoadPlugin` returns the same path and changes nothing, whatever the registry has
-- become.
pub load_plugin-Cached :
    (json : Json) (machine : Machine) (root : Str) (service : PluginService) (spec : PluginSpec)
    (ref : PluginReference) (expected : Digest) (artifact : PluginArtifact) (disk after : Disk)
    (path : Str) (chain : List Resolver)
    → is_abs root ≡ true
    → service.chain ≡ cached ∷ from_registry ∷ chain
    → parse_plugin_reference spec.name ≡ inr ref
    → to_digest spec ≡ inr expected
    → find json root disk ref ≡ err (plugin_not_found ref)
    → service.registry.pull ref ≡ some artifact
    → artifact.plugin.reference ≡ ref
    → IsSupported artifact.plugin.digest.algorithm
    → json.decode (json.encode artifact.plugin.metadata) ≡ some artifact.plugin.metadata
    → IsPinned expected artifact.plugin
    → IsSigned service ref
    → store json machine root artifact.plugin artifact.wasm disk ≡ (after, ok path)
    → (load_plugin (fs_repository json machine root) service spec disk ≡ (after, returned path))
      × (lookup path after ≡ some artifact.wasm)
      × ((later : PluginRegistry)
          → load_plugin (fs_repository json machine root) (with_registry later service) spec after
            ≡ (after, returned path))
load_plugin-Cached json machine root service spec ref expected artifact disk after path chain rooted
      is parses digest miss pulls names supported coding pinned signature stores =
    let (at_own, binary) =
      find-store json machine root artifact.plugin artifact.wasm disk after path rooted coding
        supported stores in
    let at : find json root after ref ≡ ok (artifact.plugin, path) =
      subst (λ r. find json root after r ≡ ok (artifact.plugin, path)) names at_own in
    (
      load_miss json machine root service spec ref expected parses digest signature disk after
          artifact path chain is miss pulls stores at pinned,
      binary,
      λ later.
          load_hit json machine root (with_registry later service) spec ref expected parses digest
            signature after (from_registry ∷ chain) is at pinned,
    )
