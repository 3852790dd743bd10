-- ===== src/Plugin/Repository/Listing.antt =====
-- List of plugin/repository/fs_repository.go, with filepath.Base, Dir and Rel. What filepath.Walk
-- visits, in its order, is an input.
pub mod Relative
pub mod Walked
pub mod Examples
use reglet_hostlib.Base.{
  Bool, true, false, Option, none, some, ◌⊎◌, inl, inr, List, [], ◌∷◌, ◌++◌, ◌&&◌, not, map,
  if◌then◌else◌,
}
use reglet_hostlib.Base.Text.{Str, codes, text_eq, split, cut_last, last_or}
use reglet_hostlib.Policy.Filepath.{is_abs, clean, clean_parts, join_parts, or_dot}
use reglet_hostlib.Plugin.Values.{PluginReference, ReferenceError, parse_plugin_reference}
use reglet_hostlib.Plugin.Repository.{PluginEntity, Json, Disk, Result, ok, err, find}

-- The name of a file that Walk visits: what follows the last slash.
abbrev pub base : Str → Str
base path = last_or path (split b'/' path)

abbrev directory_of : Option (Str × Str) → Str
directory_of none = clean []
directory_of (some (start, name)) = clean (start ++ b'/' ∷ [])

-- filepath.Dir
unfoldable pub dir : Str → Str
dir path = directory_of (cut_last b'/' path)

abbrev climb : List Str → List Str
climb [] = []
climb (part ∷ parts) = codes ".." ∷ climb parts

abbrev starts_up : List Str → Bool
starts_up [] = false
starts_up (part ∷ parts) = text_eq part (codes "..")

-- What is left of two paths behind their common components.
abbrev pub strip : List Str → List Str → List Str × List Str
strip [] ts = ([], ts)
strip (b ∷ bs) [] = (b ∷ bs, [])
strip (b ∷ bs) (t ∷ ts) = let rest = strip bs ts in if text_eq b t then rest else (b ∷ bs, t ∷ ts)

abbrev same_kind : Bool → Bool → Bool
same_kind true b = b
same_kind false b = not b

-- filepath.Rel
unfoldable pub rel : Str → Str → Option Str
rel from to =
    let left = strip (clean_parts from) (clean_parts to) in
    if same_kind (is_abs from) (is_abs to) && not (starts_up left.0)
    then some (or_dot (join_parts (climb left.0 ++ left.1)))
    else none

abbrev pub without_error : ReferenceError ⊎ PluginReference → Option PluginReference
without_error (inl e) = none
without_error (inr ref) = some ref

abbrev pub parsed_rel : Option Str → Option PluginReference
parsed_rel none = none
parsed_rel (some text) = without_error (parse_plugin_reference text)

-- parseRefFromPath
unfoldable pub parse_ref_from_path : Str → Str → Option PluginReference
unfolding rel
parse_ref_from_path root path = parsed_rel (rel root path)

abbrev pub found_plugin : Result (PluginEntity × Str) → List PluginEntity
found_plugin (ok (plugin, path)) = plugin ∷ []
found_plugin (err e) = []

abbrev pub listed : Json → Str → Disk → Option PluginReference → List PluginEntity
listed json root disk none = []
listed json root disk (some ref) = found_plugin (find json root disk ref)

-- What one visit adds.
unfoldable pub visit_plugin : Json → Str → Disk → Str → List PluginEntity
visit_plugin json root disk path =
    if text_eq (base path) (codes "plugin.wasm")
    then listed json root disk (parse_ref_from_path root (dir path))
    else []

-- A call of the function that Walk is given: with a path, or with an error, which ends the walk.
pub data Visit : Type 0 where
  visited : Str → Visit
  walk_failed : Visit

-- List: the plugins, and whether the walk came to its end.
unfoldable pub list : Json → Str → Disk → List Visit → List PluginEntity × Bool
list json root disk [] = ([], true)
list json root disk (walk_failed ∷ visits) = ([], false)
list json root disk (visited path ∷ visits) =
    let rest = list json root disk visits in (visit_plugin json root disk path ++ rest.0, rest.1)
