-- ===== src/Plugin/Repository.antt =====
-- plugin/repository/fs_repository.go: the cache of plugins on disk, and plugin/entities/plugin.go. The
-- disk is a map from paths to files; directories are not kept, and which calls of the operating
-- system succeed is a parameter, as is the JSON coding of the metadata.
pub mod Paths
pub mod Files
pub mod Stored
pub mod Deleted
pub mod Confined
pub mod Writes
pub mod Changes
pub mod Entries
pub mod Refinement
pub mod Held
pub mod Listing
pub mod Examples
use reglet_hostlib.Base.{
  ℕ, ◌⊎◌, Bool, true, false, not, ◌||◌, ◌&&◌, Option, none, some, inl, inr, List, [], ◌∷◌, ◌++◌,
  if◌then◌else◌,
}
use reglet_hostlib.Base.Text.{Str, codes, text_eq, has_prefix}
use reglet_hostlib.Base.Map.{Map, lookup, insert}
use reglet_hostlib.Policy.Filepath.{is_abs, clean, join}
use reglet_hostlib.Plugin.Values.{
  Digest, DigestError, parse_digest, show_digest, digest_equals, PluginReference, show_reference,
}

pub record PluginMetadata : Type 0 where
  pub name : Str
  pub version : Str
  pub description : Str
  pub capabilities : List Str

pub record PluginEntity : Type 0 where
  pub reference : PluginReference
  pub digest : Digest
  pub metadata : PluginMetadata

pub data RepositoryError : Type 0 where
  absolute_path path_traversal : RepositoryError
  plugin_not_found : PluginReference → RepositoryError
  unreadable bad_metadata bad_digest not_written not_removed : RepositoryError

pub data Result (A : Type 0) : Type 0 where
  err : RepositoryError → Result A
  ok : A → Result A

infixl 5 ◌>>=◌
abbrev pub ◌>>=◌ : {A B : Type 0} → Result A → (A → Result B) → Result B
err e >>= next = err e
ok a >>= next = next a

abbrev pub Disk : Type 0
Disk = Map Str

-- encoding/json on the metadata: what Encode writes, and what Decode reads.
pub record Json : Type 0 where
  pub encode : PluginMetadata → Str
  pub decode : Str → Option PluginMetadata

-- filepath.Join(dir, path), where `dir` is not empty
abbrev pub file_join : Str → Str → Str
file_join dir [] = clean dir
file_join dir (c ∷ path) = join dir (c ∷ path)

abbrev pub within : Str → Str → Bool
within root path = has_prefix path (root ++ b'/' ∷ []) || text_eq path root

-- pluginPath
unfoldable pub plugin_path : Str → PluginReference → Result Str
plugin_path root ref =
    let path = clean (file_join root (show_reference ref)) in
    if is_abs (show_reference ref)
    then err absolute_path
    else if within (clean root) path
    then ok path
    else err path_traversal

abbrev pub wasm_file : Str → Str
wasm_file path = file_join path (codes "plugin.wasm")

abbrev pub metadata_file : Str → Str
metadata_file path = clean (file_join path (codes "metadata.json"))

-- saveDigest joins, loadDigest cleans what it joined.
abbrev pub saved_digest_file : Str → Str
saved_digest_file path = file_join path (codes "digest.txt")

abbrev pub loaded_digest_file : Str → Str
loaded_digest_file path = clean (file_join path (codes "digest.txt"))

abbrev pub or_error : {A : Type 0} → RepositoryError → Option A → Result A
or_error e none = err e
or_error e (some a) = ok a

-- loadMetadata
unfoldable pub load_metadata : Json → Disk → Str → Result PluginMetadata
load_metadata json disk path = or_error unreadable (lookup (metadata_file path) disk) >>= λ text.
    or_error bad_metadata (json.decode text)

abbrev pub parsed : DigestError ⊎ Digest → Result Digest
parsed (inl e) = err bad_digest
parsed (inr d) = ok d

-- loadDigest
unfoldable pub load_digest : Disk → Str → Result Digest
load_digest disk path = or_error unreadable (lookup (loaded_digest_file path) disk) >>= λ text.
    parsed (parse_digest text)

-- Find: the plugin, and the path of its binary, which is looked for and not read.
unfoldable pub find : Json → Str → Disk → PluginReference → Result (PluginEntity × Str)
find json root disk ref = plugin_path root ref >>= λ path.
    or_error (plugin_not_found ref) (lookup (wasm_file path) disk) >>= λ binary.
    load_metadata json disk path >>= λ metadata. load_digest disk path >>= λ digest.
    ok (record { reference = ref; digest = digest; metadata = metadata }, wasm_file path)

-- What comes of writing a file: it was not opened, only a part of the content was written, or all
-- of it.
pub data Outcome : Type 0 where
  not_opened complete : Outcome
  partial : Str → Outcome

pub record Machine : Type 0 where
  pub makes_directory : Str → Bool
  pub writes : Str → Str → Outcome
  pub removes : Str → Bool

abbrev pub written : Outcome → Str → Str → Disk → (Disk → Disk × Result Str) → Disk × Result Str
written not_opened file content disk next = (disk, err not_written)
written (partial start) file content disk next = (insert file start disk, err not_written)
written complete file content disk next = next (insert file content disk)

-- Create and copy, or WriteFile, and what is done after it.
unfoldable pub write_file :
    Machine → Str → Str → Disk → (Disk → Disk × Result Str) → Disk × Result Str
write_file machine file content disk next =
    written (machine.writes file content) file content disk next

-- saveDigest, and the return after it
abbrev pub save_digest : Machine → Str → PluginEntity → Disk → Disk × Result Str
save_digest machine path plugin disk =
    write_file machine (saved_digest_file path) (show_digest plugin.digest) disk
      (λ after. (after, ok (wasm_file path)))

-- saveMetadata, and what follows it
abbrev pub save_metadata : Json → Machine → Str → PluginEntity → Disk → Disk × Result Str
save_metadata json machine path plugin disk =
    write_file machine (metadata_file path) (json.encode plugin.metadata) disk
      (save_digest machine path plugin)

-- Store, once the directory of the plugin is made
unfoldable pub store_at : Json → Machine → Str → PluginEntity → Str → Disk → Disk × Result Str
unfolding write_file
store_at json machine path plugin wasm disk =
    write_file machine (wasm_file path) wasm disk (save_metadata json machine path plugin)

abbrev pub stored : Json → Machine → Result Str → PluginEntity → Str → Disk → Disk × Result Str
stored json machine (err e) plugin wasm disk = (disk, err e)
stored json machine (ok path) plugin wasm disk =
    if machine.makes_directory path
    then store_at json machine path plugin wasm disk
    else (disk, err not_written)

-- Store
unfoldable pub store : Json → Machine → Str → PluginEntity → Str → Disk → Disk × Result Str
store json machine root plugin wasm disk =
    stored json machine (plugin_path root plugin.reference) plugin wasm disk

-- The file is the path itself, or stands in it; everything stands in the root directory.
abbrev pub inside : Str → Str → Bool
inside path file = text_eq path (codes "/") || within path file

abbrev pub removed : Bool → Bool → Str → Str → Disk × Bool → Disk × Bool
removed false can_remove file content rest = ((file, content) ∷ rest.0, rest.1)
removed true true file content rest = rest
removed true false file content rest = ((file, content) ∷ rest.0, false)

-- os.RemoveAll: everything that can be removed is, and what cannot is an error.
unfoldable pub remove_all : Machine → Str → Disk → Disk × Bool
remove_all machine path [] = ([], true)
remove_all machine path ((file, content) ∷ disk) =
    removed (inside path file) (machine.removes file) file content (remove_all machine path disk)

abbrev pub deleted : Machine → Result Str → Disk → Disk × Option RepositoryError
deleted machine (err e) disk = (disk, some e)
deleted machine (ok path) disk =
    let left = remove_all machine path disk in (left.0, if left.1 then none else some not_removed)

-- Delete; `none` is the nil error.
unfoldable pub delete : Machine → Str → PluginReference → Disk → Disk × Option RepositoryError
unfolding remove_all
delete machine root ref disk = deleted machine (plugin_path root ref) disk

-- Prune: the directory is left as it is, whatever the number of versions to keep.
unfoldable pub prune : ℕ → Disk → Disk × Option RepositoryError
prune keep_versions disk = (disk, none)

-- filepath.Join(home, ".reglet", "plugins"), where the home directory may be unknown
abbrev default_root : Str → Str
default_root [] = codes ".reglet/plugins"
default_root (c ∷ home) = join (c ∷ home) (codes ".reglet/plugins")

-- NewFSPluginRepository: the directory of the cache, once it is made
unfoldable pub new_fs_plugin_repository : Machine → Str → Str → Result Str
new_fs_plugin_repository machine home root =
    let chosen = if text_eq root [] then default_root home else root in
    if machine.makes_directory chosen then ok chosen else err not_written
