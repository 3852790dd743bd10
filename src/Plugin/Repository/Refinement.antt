-- ===== src/Plugin/Repository/Refinement.antt =====
-- Find and Store on the abstract cache.
use mathlib.Core.Path.{subst}
use reglet_hostlib.Base.{◌≡◌, refl, ◌≢◌, ◌↔◌, inl, inr, true, Option, some, none, Bool-cases}
use reglet_hostlib.Base.Text.{Str}
use reglet_hostlib.Policy.Filepath.{is_abs}
use reglet_hostlib.Base.Map.{lookup}
use reglet_hostlib.Plugin.Values.{Digest, PluginReference}
use reglet_hostlib.Plugin.Values.Digests.{IsSupported}
use reglet_hostlib.Plugin.Repository.{
  PluginEntity, PluginMetadata, plugin_not_found, Json, Disk, Machine, Result, ok, err, ◌>>=◌,
  or_error, plugin_path, wasm_file, load_metadata, load_digest, find, stored, store,
}
use reglet_hostlib.Plugin.Repository.Paths.{IsDirectory, plugin_path-IsDirectory}
use reglet_hostlib.Plugin.Repository.Stored.{find-store}
use reglet_hostlib.Plugin.Repository.Entries.{CacheEntry, Cache, entry_of, view, store_at-other}

-- What Find returns is the entry of the directory.
abbrev pub IsEntry : PluginReference → Str → Option CacheEntry → PluginEntity → Str → Type 0
IsEntry ref path entry plugin file =
    (plugin.reference ≡ ref)
    × (file ≡ wasm_file path)
    × ((binary : Str) × (entry
          ≡ some (record { binary = binary; metadata = plugin.metadata; digest = plugin.digest })))

abbrev read :
    PluginReference
    → Str
    → Option Str
    → Result PluginMetadata
    → Result Digest
    → Result (PluginEntity × Str)
read ref path binary loaded parsed_ = or_error (plugin_not_found ref) binary >>= λ content.
    loaded >>= λ metadata. parsed_ >>= λ digest.
    ok (record { reference = ref; digest = digest; metadata = metadata }, wasm_file path)

module _ (ref : PluginReference) (path : Str) (plugin : PluginEntity) (file : Str) where
  read_iff :
      (binary : Option Str) (loaded : Result PluginMetadata) (parsed_ : Result Digest)
      → (read ref path binary loaded parsed_ ≡ ok (plugin, file))
        ↔ IsEntry ref path (entry_of binary loaded parsed_) plugin file
  read_iff none loaded parsed_ = ((λ h. absurd (cc h)), (λ (r, f, (b, e)). absurd (cc e)))
  read_iff (some content) (err e) parsed_ =
      ((λ h. absurd (cc h)), (λ (r, f, (b, e)). absurd (cc e)))
  read_iff (some content) (ok metadata) (err e) =
      ((λ h. absurd (cc h)), (λ (r, f, (b, e)). absurd (cc e)))
  read_iff (some content) (ok metadata) (ok digest) =
      ((λ h. (cc h, cc h, (content, cc h))), (λ (r, f, (b, e)). cc (r, f, e)))

-- `Find` under an accepted reference returns a plugin and a path exactly if the abstract cache has
-- an entry for the directory of the reference, with the metadata and the digest of the plugin.
pub find_view :
    (json : Json) (root : Str) (disk : Disk) (ref : PluginReference) (path : Str)
    (plugin : PluginEntity) (file : Str)
    → plugin_path root ref ≡ ok path
    → (find json root disk ref ≡ ok (plugin, file))
      ↔ IsEntry ref path (view json disk path) plugin file
unfolding find
find_view json root disk ref path plugin file target =
    rw (target, find)
      (read_iff ref path plugin file (lookup (wasm_file path) disk) (load_metadata json disk path)
        (load_digest disk path))

-- A store puts one entry if it completes, and changes no other entry in any case.
pub record IsPut (before after : Cache) (path : Str) (entry : CacheEntry) (result : Result Str)
    : Type 0 where
  pub own : (file : Str) → result ≡ ok file → after path ≡ some entry
  pub others : (other : Str) → IsDirectory other → other ≢ path → after other ≡ before other

stored-other :
    (json : Json) (machine : Machine) (plugin : PluginEntity) (wasm : Str) (disk : Disk)
    {path other : Str}
    → IsDirectory path
    → IsDirectory other
    → other ≢ path
    → view json (stored json machine (ok path) plugin wasm disk).0 other ≡ view json disk other
stored-other json machine plugin wasm disk {path} d o n =
    elim (Bool-cases (machine.makes_directory path)) [
      | inl e ↦ rw e (store_at-other json machine plugin wasm disk d o n)
      | inr e ↦ rw e refl
    ]

entry_binary :
    (binary : Option Str) (loaded : Result PluginMetadata) (parsed_ : Result Digest)
    {c : CacheEntry}
    → entry_of binary loaded parsed_ ≡ some c
    → binary ≡ some c.binary
entry_binary none loaded parsed_ h = absurd (cc h)
entry_binary (some content) (err e) parsed_ h = absurd (cc h)
entry_binary (some content) (ok metadata) (err e) h = absurd (cc h)
entry_binary (some content) (ok metadata) (ok digest) h = cc h

abbrev pub entry_for : PluginEntity → Str → CacheEntry
entry_for plugin wasm = record { binary = wasm; metadata = plugin.metadata; digest = plugin.digest }

-- Under a rooted directory that accepts the reference of the plugin, where the coding keeps the
-- metadata and the algorithm of the digest is supported, `Store` puts the plugin with its binary
-- into the abstract cache, at the directory of its reference, if it returns a path; and however far
-- it gets, it changes the entry of no other directory.
pub store-IsPut :
    (json : Json) (machine : Machine) (root : Str) (plugin : PluginEntity) (wasm : Str)
    (disk : Disk) (path : Str)
    → is_abs root ≡ true
    → plugin_path root plugin.reference ≡ ok path
    → json.decode (json.encode plugin.metadata) ≡ some plugin.metadata
    → IsSupported plugin.digest.algorithm
    → IsPut
        (view json disk)
        (view json (store json machine root plugin wasm disk).0)
        path
        (entry_for plugin wasm)
        (store json machine root plugin wasm disk).1
unfolding store
store-IsPut json machine root plugin wasm disk path rooted target coding supported =
    let (d, inner) = plugin_path-IsDirectory root plugin.reference rooted target in
    let result = store json machine root plugin wasm disk in
    record {
      own = λ file h.
          let stores : store json machine root plugin wasm disk ≡ (result.0, ok file) = cc h in
          let (found, binary) =
            find-store json machine root plugin wasm disk result.0 file rooted coding supported
              stores in
          let (r, f, (content, e)) =
            (find_view json root result.0 plugin.reference path plugin file target).0 found in
          let here =
            entry_binary (lookup (wasm_file path) result.0) (load_metadata json result.0 path)
              (load_digest result.0 path) e in
          let same : content ≡ wasm = cc (here, f, binary) in
          subst
            (λ b.
              view json result.0 path
              ≡ some (record { binary = b; metadata = plugin.metadata; digest = plugin.digest }))
            same e;
      others = λ other o n. rw target (stored-other json machine plugin wasm disk d o n);
    }
