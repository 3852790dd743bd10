-- ===== src/Plugin/Repository/Stored.antt =====
-- Find after Store.
use mathlib.Core.Path.{subst}
use reglet_hostlib.Base.{◌≡◌, refl, ap, sym, ◌∙◌, inl, inr, true, some, arith, Bool-cases}
use reglet_hostlib.Base.Text.{Str}
use reglet_hostlib.Base.Map.{lookup, insert, lookup-insert_self, lookup-insert_ne}
use reglet_hostlib.Policy.Filepath.{is_abs}
use reglet_hostlib.Plugin.Values.{PluginReference, show_digest}
use reglet_hostlib.Plugin.Values.Digests.{IsSupported, parse_digest_iff}
use reglet_hostlib.Plugin.Repository.{
  PluginEntity, Json, Disk, Machine, Outcome, not_opened, partial, complete, Result, ok, err,
  written, write_file, plugin_path, wasm_file, metadata_file, saved_digest_file, load_metadata,
  load_digest, find, store_at, stored, store,
}
use reglet_hostlib.Plugin.Repository.Paths.{IsDirectory, plugin_path-IsDirectory}
use reglet_hostlib.Plugin.Repository.Files.{
  loaded_digest_file_lem, wasm-metadata, wasm-digest, metadata-digest,
}

written_ok :
    (o : Outcome) (file content : Str) (disk : Disk) (next : Disk → Disk × Result Str)
    {after : Disk} {where_ : Str}
    → written o file content disk next ≡ (after, ok where_)
    → next (insert file content disk) ≡ (after, ok where_)
written_ok not_opened file content disk next h = absurd (cc h)
written_ok (partial start) file content disk next h = absurd (cc h)
written_ok complete file content disk next h = h

-- The disk after a complete Store.
abbrev pub with_plugin : Json → Str → PluginEntity → Str → Disk → Disk
with_plugin json path plugin wasm disk =
    insert (saved_digest_file path) (show_digest plugin.digest) (
      insert (metadata_file path) (json.encode plugin.metadata) (insert (wasm_file path) wasm disk))

abbrev pub finished : Json → Str → PluginEntity → Str → Disk → Disk × Result Str
finished json path plugin wasm disk = (with_plugin json path plugin wasm disk, ok (wasm_file path))

module _ (json : Json) (machine : Machine) (plugin : PluginEntity) (wasm : Str) (disk : Disk) where
  store_at_ok :
      (path : Str) {after : Disk} {file : Str}
      → store_at json machine path plugin wasm disk ≡ (after, ok file)
      → finished json path plugin wasm disk ≡ (after, ok file)
  unfolding store_at write_file
  store_at_ok path h =
      written_ok (machine.writes (saved_digest_file path) (show_digest plugin.digest)) _ _ _ _ (
        written_ok (machine.writes (metadata_file path) (json.encode plugin.metadata)) _ _ _ _
          (written_ok (machine.writes (wasm_file path) wasm) _ _ _ _ h))

  stored_ok :
      (target : Result Str) {after : Disk} {file : Str}
      → stored json machine target plugin wasm disk ≡ (after, ok file)
      → (path : Str) × (target ≡ ok path) × (finished json path plugin wasm disk ≡ (after, ok file))
  stored_ok (err e) h = absurd (cc h)
  stored_ok (ok path) h = elim (Bool-cases (machine.makes_directory path)) [
    | inl e ↦ (path, refl, store_at_ok path (ground arith))
    | inr e ↦ absurd (ground arith)
  ]

  with_plugin_lookups :
      {path : Str}
      → IsDirectory path
      → (lookup (wasm_file path) (with_plugin json path plugin wasm disk) ≡ some wasm)
        × (lookup (metadata_file path) (with_plugin json path plugin wasm disk)
            ≡ some (json.encode plugin.metadata))
        × (lookup (saved_digest_file path) (with_plugin json path plugin wasm disk)
            ≡ some (show_digest plugin.digest))
  with_plugin_lookups {path} d = (
    lookup-insert_ne _ _ _ _ (λ e. wasm-digest d (sym e))
        ∙ lookup-insert_ne _ _ _ _ (λ e. wasm-metadata d (sym e))
        ∙ lookup-insert_self (wasm_file path) wasm disk,
    lookup-insert_ne _ _ _ _ (λ e. metadata-digest d (sym e)) ∙ lookup-insert_self _ _ _,
    lookup-insert_self _ _ _,
  )

  -- Find in a directory whose three files can be read.
  found :
      (root : Str) {path : Str} {ref : PluginReference} (on : Disk)
      → plugin_path root ref ≡ ok path
      → IsDirectory path
      → IsSupported plugin.digest.algorithm
      → json.decode (json.encode plugin.metadata) ≡ some plugin.metadata
      → lookup (wasm_file path) on ≡ some wasm
      → lookup (metadata_file path) on ≡ some (json.encode plugin.metadata)
      → lookup (saved_digest_file path) on ≡ some (show_digest plugin.digest)
      → find json root on ref
        ≡ ok (
          record { reference = ref; digest = plugin.digest; metadata = plugin.metadata },
          wasm_file path,
        )
  unfolding find load_metadata load_digest
  found root on target d supported coding w m g =
      let parses =
        (parse_digest_iff (show_digest plugin.digest) plugin.digest).1 (refl, supported) in
      rw (target, find, w, m, coding, loaded_digest_file_lem d, g, parses) refl

-- Under a rooted directory, where the coding of the metadata keeps it and the algorithm of the
-- digest is supported: when `Store` returns a path, `Find` under the same reference returns the
-- plugin as it was given to `Store`, and the same path, at which the disk holds the binary.
pub find-store :
    (json : Json) (machine : Machine) (root : Str) (plugin : PluginEntity) (wasm : Str)
    (disk after : Disk) (file : Str)
    → is_abs root ≡ true
    → json.decode (json.encode plugin.metadata) ≡ some plugin.metadata
    → IsSupported plugin.digest.algorithm
    → store json machine root plugin wasm disk ≡ (after, ok file)
    → (find json root after plugin.reference ≡ ok (plugin, file)) × (lookup file after ≡ some wasm)
unfolding store
find-store json machine root plugin wasm disk after file rooted coding supported h =
    let (path, target, e) =
      stored_ok json machine plugin wasm disk (plugin_path root plugin.reference) h in
    let (d, inside) = plugin_path-IsDirectory root plugin.reference rooted target in
    let (w, m, g) = with_plugin_lookups json machine plugin wasm disk d in
    let on : with_plugin json path plugin wasm disk ≡ after = ap (λ r. r.0) e in
    let at : wasm_file path ≡ file = cc e in
    let there = found json machine plugin wasm disk root _ target d supported coding w m g in
    (
      subst (λ a. find json root a plugin.reference ≡ ok (plugin, file)) on
          (subst
            (λ f.
              find json root (with_plugin json path plugin wasm disk) plugin.reference
              ≡ ok (plugin, f))
            at there),
      subst (λ a. lookup file a ≡ some wasm) on
          (subst (λ f. lookup f (with_plugin json path plugin wasm disk) ≡ some wasm) at w),
    )
