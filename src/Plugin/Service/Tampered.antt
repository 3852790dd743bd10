-- ===== src/Plugin/Service/Tampered.antt =====
-- The binary that a load names is looked for, and its content is not read.
use mathlib.Core.Path.{subst}
use reglet_hostlib.Base.{◌≡◌, refl, true, ◌∷◌, List}
use reglet_hostlib.Base.Text.{Str}
use reglet_hostlib.Base.Map.{lookup, insert, lookup-insert_self, lookup-insert_ne}
use reglet_hostlib.Policy.Filepath.{is_abs}
use reglet_hostlib.Plugin.Values.{PluginReference}
use reglet_hostlib.Plugin.Repository.{
  PluginEntity, Json, Disk, Machine, Result, ok, err, ◌>>=◌, or_error, plugin_path, wasm_file,
  load_metadata, load_digest, find,
}
use reglet_hostlib.Plugin.Repository.Paths.{IsDirectory, plugin_path-IsDirectory}
use reglet_hostlib.Plugin.Repository.Files.{loaded_digest_file_lem, wasm-metadata, wasm-digest}
use reglet_hostlib.Plugin.Service.{
  PluginService, PluginSpec, Resolver, cached, returned, load_plugin,
}
use reglet_hostlib.Plugin.Service.Loading.{IsPinned, load_plugin_iff}
use reglet_hostlib.Plugin.Service.Cache.{fs_repository, resolve_hit, load_hit}

module _ (json : Json) (disk : Disk) (content : Str) where
  load_metadata-rewritten :
      {path : Str}
      → IsDirectory path
      → load_metadata json (insert (wasm_file path) content disk) path
        ≡ load_metadata json disk path
  unfolding load_metadata
  load_metadata-rewritten d = rw (lookup-insert_ne _ _ content disk (wasm-metadata d)) refl

  load_digest-rewritten :
      {path : Str}
      → IsDirectory path
      → load_digest (insert (wasm_file path) content disk) path ≡ load_digest disk path
  unfolding load_digest
  load_digest-rewritten d =
      rw (loaded_digest_file_lem d, lookup-insert_ne _ _ content disk (wasm-digest d)) refl

bind_ok :
    {A B : Type 0} (r : Result A) {next : A → Result B} {b : B}
    → (r >>= next) ≡ ok b
    → (a : A) × (r ≡ ok a) × (next a ≡ ok b)
bind_ok (err e) h = absurd (cc h)
bind_ok (ok a) h = (a, refl, h)

-- Find after the binary is overwritten.
find-rewritten :
    (json : Json) (root : Str) (ref : PluginReference) (disk : Disk) (content : Str)
    {plugin : PluginEntity} {path : Str}
    → is_abs root ≡ true
    → find json root disk ref ≡ ok (plugin, path)
    → find json root (insert path content disk) ref ≡ ok (plugin, path)
unfolding find
find-rewritten json root ref disk content {plugin} {path} rooted h =
    let (dir, target, h1) = bind_ok (plugin_path root ref) h in
    let (binary, there, h2) = bind_ok (or_error _ (lookup (wasm_file dir) disk)) h1 in
    let (metadata, loaded, h3) = bind_ok (load_metadata json disk dir) h2 in
    let (digest, read, h4) = bind_ok (load_digest disk dir) h3 in
    let (d, inside) = plugin_path-IsDirectory root ref rooted target in
    let same : wasm_file dir ≡ path = cc h4 in
    subst (λ p. find json root (insert p content disk) ref ≡ ok (plugin, path)) same
      (rw
        (
          target,
          find,
          lookup-insert_self (wasm_file dir) content disk,
          load_metadata-rewritten json disk content d,
          loaded,
          load_digest-rewritten json disk content d,
          read,
        )
        h4)

-- The service looks in the cache first, under a rooted directory. When `LoadPlugin` returns a path
-- and leaves the disk as it is, it returns that path and changes nothing after the file there has
-- been overwritten by any other content, whatever digest is pinned.
pub load_plugin-rewritten :
    (json : Json) (machine : Machine) (root : Str) (service : PluginService) (spec : PluginSpec)
    (disk : Disk) (content : Str) (path : Str) (chain : List Resolver)
    → is_abs root ≡ true
    → service.chain ≡ cached ∷ chain
    → load_plugin (fs_repository json machine root) service spec disk ≡ (disk, returned path)
    → load_plugin (fs_repository json machine root) service spec (insert path content disk)
      ≡ (insert path content disk, returned path)
load_plugin-rewritten json machine root service spec disk content path chain rooted is h =
    let l = (load_plugin_iff (fs_repository json machine root) service spec disk disk path).0 h in
    let (kept, at) = l.located_at in
    let hit =
      resolve_hit (fs_repository json machine root) service.registry chain l.reference disk at in
    let same : l.plugin ≡ kept = cc (hit, l.resolves, is) in
    load_hit json machine root service spec l.reference l.expected l.parses l.digest l.signature
      (insert path content disk) chain is
      (find-rewritten json root l.reference disk content rooted at)
      (subst (λ p. IsPinned l.expected p) same l.pinned)
