-- ===== src/Plugin/Repository/Changes.antt =====
-- Store and Delete change no file outside the directory, and Find after Delete finds nothing.
use reglet_hostlib.Base.{◌≡◌, refl, ◌≢◌, ap, sym, inl, inr, true, false, none, arith, Bool-cases}
use reglet_hostlib.Base.Text.{Str, codes, text_eq, text_eq_iff}
use reglet_hostlib.Policy.Filepath.{is_abs, clean}
use reglet_hostlib.Plugin.Values.{PluginReference}
use reglet_hostlib.Plugin.Repository.{
  PluginEntity, plugin_not_found, Json, Disk, Machine, Result, ok, err, within, inside, plugin_path,
  wasm_file, find, store_at, stored, store, remove_all, deleted, delete,
}
use reglet_hostlib.Plugin.Repository.Paths.{IsDirectory, IsDirectory-clean, plugin_path-IsDirectory}
use reglet_hostlib.Plugin.Repository.Files.{
  file_at, wasm_file_lem, metadata_file_lem, saved_digest_file_lem,
}
use reglet_hostlib.Plugin.Repository.Writes.{IsKept, store_at-IsKept}
use reglet_hostlib.Plugin.Repository.Deleted.{lookup-remove_all, remove_all_complete}
use reglet_hostlib.Plugin.Repository.Confined.{within_trans, within-file_at, within-ne-slash}

-- No file outside the directory differs.
abbrev pub IsConfined : Str → Disk → Disk → Type 0
IsConfined root before after = IsKept (within root) before after

module _ (root : Str) {path : Str} (d : IsDirectory path) (n : path ≢ codes "/")
    (w : within root path ≡ true) where
  file-within : (file x : Str) → file ≡ file_at d.parts x → within root file ≡ true
  file-within file x e = rw e (within_trans root path (file_at d.parts x) w (within-file_at d x n))

  store_at-IsConfined :
      (json : Json) (machine : Machine) (plugin : PluginEntity) (wasm : Str) (disk : Disk)
      → IsConfined root disk (store_at json machine path plugin wasm disk).0
  store_at-IsConfined =
      store_at-IsKept (within root) path (file-within _ (codes "plugin.wasm") (wasm_file_lem d))
        (file-within _ (codes "metadata.json") (metadata_file_lem d))
        (file-within _ (codes "digest.txt") (saved_digest_file_lem d))

  -- What is in the path is in the directory.
  inside-within : (file : Str) → within root file ≡ false → inside path file ≡ false
  inside-within file outer = elim (Bool-cases (within path file)) [
    | inl e ↦ absurd (cc (within_trans root path file w e, outer))
    | inr e ↦ ground (arith, text_eq_iff path (codes "/"))
  ]

  remove_all-IsConfined :
      (machine : Machine) (disk : Disk) → IsConfined root disk (remove_all machine path disk).0
  remove_all-IsConfined machine disk file outer =
      lookup-remove_all machine path file disk (inside-within file outer)

module _ (root : Str) (rooted : is_abs root ≡ true) (proper : clean root ≢ codes "/") where
  -- The directory of an accepted reference.
  plugin_path-Proper :
      (ref : PluginReference) {path : Str}
      → plugin_path root ref ≡ ok path
      → IsDirectory path × (path ≢ codes "/") × (within (clean root) path ≡ true)
  plugin_path-Proper ref h =
      let (d, w) = plugin_path-IsDirectory root ref rooted h in
      (d, within-ne-slash (IsDirectory-clean root rooted) proper w, w)

  stored-IsConfined :
      (json : Json) (machine : Machine) (plugin : PluginEntity) (wasm : Str) (disk : Disk)
      (target : Result Str)
      → plugin_path root plugin.reference ≡ target
      → IsConfined (clean root) disk (stored json machine target plugin wasm disk).0
  stored-IsConfined json machine plugin wasm disk (err e) h = λ file outer. refl
  stored-IsConfined json machine plugin wasm disk (ok path) h =
      let (d, n, w) = plugin_path-Proper plugin.reference h in
      elim (Bool-cases (machine.makes_directory path)) [
        | inl e ↦ rw e (store_at-IsConfined (clean root) d n w json machine plugin wasm disk)
        | inr e ↦ rw e (λ file outer. refl)
      ]

  deleted-IsConfined :
      (machine : Machine) (ref : PluginReference) (disk : Disk) (target : Result Str)
      → plugin_path root ref ≡ target
      → IsConfined (clean root) disk (deleted machine target disk).0
  deleted-IsConfined machine ref disk (err e) h = λ file outer. refl
  deleted-IsConfined machine ref disk (ok path) h =
      let (d, n, w) = plugin_path-Proper ref h in
      remove_all-IsConfined (clean root) d n w machine disk

  find_deleted :
      (json : Json) (machine : Machine) (ref : PluginReference) (disk after : Disk)
      (target : Result Str)
      → plugin_path root ref ≡ target
      → deleted machine target disk ≡ (after, none)
      → find json root after ref ≡ err (plugin_not_found ref)
  unfolding find
  find_deleted json machine ref disk after (err e) h r = absurd (cc r)
  find_deleted json machine ref disk after (ok path) h r =
      let (d, n, w) = plugin_path-Proper ref h in
      let here : inside path (wasm_file path) ≡ true =
        rw (wasm_file_lem d, within-file_at d (codes "plugin.wasm") n)
          (elim (Bool-cases (text_eq path (codes "/"))) [
            | inl e ↦ rw e refl
            | inr e ↦ rw e refl
          ]) in
      let gone = remove_all_complete machine path (wasm_file path) disk here (ground arith) in
      let left : (remove_all machine path disk).0 ≡ after = ap (λ s. s.0) r in
      rw (h, find, sym left, gone) refl

-- Under a rooted directory other than "/", `Store` and `Delete` change no file outside the
-- directory, whatever the reference and however far they get.
pub repository-IsConfined :
    (json : Json) (machine : Machine) (root : Str) (plugin : PluginEntity) (ref : PluginReference)
    (wasm : Str) (disk : Disk)
    → is_abs root ≡ true
    → clean root ≢ codes "/"
    → IsConfined (clean root) disk (store json machine root plugin wasm disk).0
      × IsConfined (clean root) disk (delete machine root ref disk).0
unfolding store delete
repository-IsConfined json machine root plugin ref wasm disk rooted proper = (
  stored-IsConfined root rooted proper json machine plugin wasm disk _ refl,
  deleted-IsConfined root rooted proper machine ref disk _ refl,
)

-- Under a rooted directory other than "/", when `Delete` reports no error, `Find` reports that the
-- plugin is not there.
pub find-delete :
    (json : Json) (machine : Machine) (root : Str) (ref : PluginReference) (disk after : Disk)
    → is_abs root ≡ true
    → clean root ≢ codes "/"
    → delete machine root ref disk ≡ (after, none)
    → find json root after ref ≡ err (plugin_not_found ref)
unfolding delete
find-delete json machine root ref disk after rooted proper h =
    find_deleted root rooted proper json machine ref disk after _ refl h
