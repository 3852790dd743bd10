-- ===== src/Plugin/Repository/Examples.antt =====
-- A cache under /cache, and what is stored in it.
use reglet_hostlib.Base.{◌↔◌, ◌≡◌, refl, inl, true, none, some, [], ◌∷◌}
use reglet_hostlib.Base.Text.{cut, Str, codes, text_eq, split, has_prefix}
use reglet_hostlib.Base.Map.{lookup, insert}
use reglet_hostlib.Policy.Filepath.{is_abs, clean, join}
use reglet_hostlib.Plugin.Values.{
  new_digest, parse_digest, PluginReference, show_digest, is_embedded, show_reference,
}
use reglet_hostlib.Plugin.Repository.{
  load_metadata, load_digest, PluginEntity, plugin_not_found, path_traversal, absolute_path,
  not_written, Json, Disk, Machine, complete, partial, ok, err, plugin_path, write_file, find,
  store_at, store, remove_all, delete,
}
use reglet_hostlib.Plugin.Repository.Entries.{view}
use reglet_hostlib.Plugin.Repository.Held.{IsFound, find_iff}
use reglet_hostlib.Plugin.Repository.Refinement.{IsPut, entry_for, store-IsPut}
use reglet_hostlib.Plugin.Repository.Changes.{IsConfined, repository-IsConfined, find-delete}

abbrev pub root_dir : Str
root_dir = codes "/c"

-- A coding of metadata that keeps the name.
abbrev pub name_json : Json
name_json = record {
  encode = λ metadata. metadata.name;
  decode = λ text. some (record { name = text; version = []; description = []; capabilities = [] });
}

abbrev pub good_machine : Machine
good_machine = record {
  makes_directory = λ path. true;
  writes = λ file content. complete;
  removes = λ file. true;
}

-- A disk that fills up.
abbrev full_machine : Machine
full_machine = record {
  makes_directory = λ path. true;
  writes = λ file content. partial [];
  removes = λ file. true;
}

abbrev pub file_ref : PluginReference
file_ref = record {
  registry = codes "g";
  org = codes "o";
  repo = codes "r";
  name = codes "f";
  version = codes "1";
}

abbrev pub file_plugin : PluginEntity
file_plugin = record {
  reference = file_ref;
  digest = record { algorithm = codes "sha256"; value = codes "ab" };
  metadata = record { name = codes "f"; version = []; description = []; capabilities = [] };
}

abbrev named : Str → PluginReference
named name = record { registry = []; org = []; repo = []; name = name; version = [] }

abbrev pub other_file : Str × Str
other_file = (codes "/etc/x", codes "y")

abbrev pub stored_disk : Disk
stored_disk =
    other_file
    ∷ (codes "/c/g/o/r/f:1/plugin.wasm", codes "wasm")
    ∷ (codes "/c/g/o/r/f:1/metadata.json", codes "f")
    ∷ (codes "/c/g/o/r/f:1/digest.txt", codes "sha256:ab")
    ∷ []

abbrev pub file_path : Str
file_path = codes "/c/g/o/r/f:1/plugin.wasm"

pub store_lem :
    store name_json good_machine root_dir file_plugin (codes "wasm") (other_file ∷ [])
    ≡ (stored_disk, ok file_path)
unfolding store store_at write_file plugin_path show_reference is_embedded show_digest text_eq
    is_abs clean join has_prefix insert
store_lem = refl

plugin_path_tests :
    (plugin_path root_dir (named (codes "../x")) ≡ err path_traversal)
    × (plugin_path root_dir (named (codes "/x")) ≡ err absolute_path)
    × (plugin_path root_dir (named (codes ".")) ≡ ok (codes "/c"))
    × (plugin_path (codes "/") (named (codes "x")) ≡ err path_traversal)
unfolding plugin_path show_reference is_embedded text_eq is_abs clean join has_prefix
plugin_path_tests = (refl, refl, refl, refl)

full_test :
    store name_json full_machine root_dir file_plugin (codes "wasm") []
    ≡ ((file_path, []) ∷ [], err not_written)
unfolding store store_at write_file plugin_path show_reference is_embedded show_digest text_eq
    is_abs clean join has_prefix insert
full_test = refl

-- A reference "." names the directory itself, and deletes every plugin.
delete_test : delete good_machine root_dir (named (codes ".")) stored_disk ≡ (other_file ∷ [], none)
unfolding delete remove_all plugin_path show_reference is_embedded text_eq is_abs clean join
    has_prefix
delete_test = refl

root_dir-proper : clean root_dir ≡ codes "/c"
unfolding clean is_abs split
root_dir-proper = refl

repository-IsConfined_example :
    IsConfined
      (clean root_dir)
      (other_file ∷ [])
      (store name_json full_machine root_dir file_plugin (codes "wasm") (other_file ∷ [])).0
    × IsConfined
        (clean root_dir)
        (other_file ∷ [])
        (delete full_machine root_dir (named (codes ".")) (other_file ∷ [])).0
repository-IsConfined_example =
    repository-IsConfined name_json full_machine root_dir file_plugin (named (codes "."))
      (codes "wasm") (other_file ∷ []) (unfold is_abs in refl) (λ e. cc (root_dir-proper, e))

delete_lem : delete good_machine root_dir file_ref stored_disk ≡ (other_file ∷ [], none)
unfolding delete remove_all plugin_path show_reference is_embedded text_eq is_abs clean join
    has_prefix
delete_lem = refl

find-delete_example :
    find name_json root_dir (other_file ∷ []) file_ref ≡ err (plugin_not_found file_ref)
find-delete_example =
    find-delete name_json good_machine root_dir file_ref stored_disk (other_file ∷ [])
      (unfold is_abs in refl) (λ e. cc (root_dir-proper, e)) delete_lem

abbrev pub file_dir : Str
file_dir = codes "/c/g/o/r/f:1"

pub plugin_path_lem : plugin_path root_dir file_ref ≡ ok file_dir
unfolding plugin_path show_reference is_embedded text_eq is_abs clean join has_prefix
plugin_path_lem = refl

store-IsPut_example :
    IsPut
      (view name_json (other_file ∷ []))
      (view name_json
        (store name_json good_machine root_dir file_plugin (codes "wasm") (other_file ∷ [])).0)
      file_dir
      (entry_for file_plugin (codes "wasm"))
      (store name_json good_machine root_dir file_plugin (codes "wasm") (other_file ∷ [])).1
store-IsPut_example =
    store-IsPut name_json good_machine root_dir file_plugin (codes "wasm") (other_file ∷ [])
      file_dir (unfold is_abs in refl) plugin_path_lem refl (inl refl)

pub found_lem : find name_json root_dir stored_disk file_ref ≡ ok (file_plugin, file_path)
unfolding find plugin_path show_reference is_embedded text_eq is_abs clean join has_prefix lookup
    load_metadata load_digest parse_digest new_digest cut
found_lem = refl

find_iff_example :
    (find name_json root_dir stored_disk file_ref ≡ ok (file_plugin, file_path))
    ↔ IsFound name_json stored_disk file_ref file_dir file_plugin file_path
find_iff_example =
    find_iff name_json root_dir stored_disk file_ref file_dir file_plugin file_path
      (unfold is_abs in refl) (λ e. cc (root_dir-proper, e)) plugin_path_lem
