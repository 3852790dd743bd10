-- ===== src/Plugin/Repository/Listing/Walked.antt =====
-- What is stored is listed.
use reglet_hostlib.Base.{
  ◌≡◌, refl, ap, sym, ◌∙◌, inl, inr, true, some, List, [], ◌∷◌, ◌++◌, arith, All, Any, Bool-cases,
}
use reglet_hostlib.Base.Text.{Str, codes, text_eq_refl, Lacks, split, last_or}
use reglet_hostlib.Policy.Filepath.{is_abs, clean, clean_parts, join_parts, join}
use reglet_hostlib.Policy.Paths.{IsDown, clean_parts-IsDown, is_abs-append}
use reglet_hostlib.Plugin.Values.{PluginReference, show_reference}
use reglet_hostlib.Plugin.Values.References.{
  IsRegistryReference, parse_plugin_reference-show_reference,
}
use reglet_hostlib.Plugin.Repository.{
  PluginEntity, Json, Disk, ok, file_join, within, plugin_path, find,
}
use reglet_hostlib.Plugin.Repository.Paths.{IsDirectory, split-lead}
use reglet_hostlib.Plugin.Repository.Files.{file_at, wasm-IsDown, wasm_file_lem}
use reglet_hostlib.Plugin.Repository.Refinement.{find_view}
use reglet_hostlib.Plugin.Repository.Listing.{
  base, dir, rel, parse_ref_from_path, visit_plugin, Visit, visited, walk_failed, list,
}
use reglet_hostlib.Plugin.Repository.Listing.Relative.{
  clean_parts-join_parts, clean-own, clean_parts-append, rel-join, dir-file_at,
}

-- The reference leads down in the directory: no part of its text is empty, "." or "..".
abbrev pub LeadsDown : PluginReference → Type 0
LeadsDown ref = All IsDown (split b'/' (show_reference ref))

All-append : (xs ys : List Str) → All IsDown xs → All IsDown ys → All IsDown (xs ++ ys)
All-append [] ys h k = k
All-append (x ∷ xs) ys (d, h) k = (d, All-append xs ys h k)

plugin_path_value :
    (root : Str) (ref : PluginReference) {path : Str}
    → plugin_path root ref ≡ ok path
    → clean (file_join root (show_reference ref)) ≡ path
unfolding plugin_path
plugin_path_value root ref h =
    let target = clean (file_join root (show_reference ref)) in
    elim (Bool-cases (is_abs (show_reference ref))) [
      | inl e ↦ absurd (ground arith)
      | inr e ↦ elim (Bool-cases (within (clean root) target)) [
        | inl inner ↦ ground arith
        | inr outer ↦ absurd (ground arith)
      ]
    ]

file_join_lem : (root s : Str) → All IsDown (split b'/' s) → file_join root s ≡ join root s
unfolding split
file_join_lem root [] h = absurd (h.0.0.0 refl)
file_join_lem root (c ∷ s) h = refl

clean-rooted : (s : Str) → is_abs s ≡ true → clean s ≡ b'/' ∷ join_parts (clean_parts s)
unfolding clean
clean-rooted s rooted = rw rooted refl

module _ (root : Str) (ref : PluginReference) (rooted : is_abs root ≡ true)
    (down : LeadsDown ref) where
  abbrev parts_of : List Str
  parts_of = clean_parts root ++ split b'/' (show_reference ref)

  parts-IsDown : All IsDown parts_of
  parts-IsDown = All-append _ _ (clean_parts-IsDown root rooted) down

  -- The directory of the reference.
  path_value : {path : Str} → plugin_path root ref ≡ ok path → path ≡ b'/' ∷ join_parts parts_of
  unfolding join
  path_value h =
      let s = show_reference ref in
      let joined : join root s ≡ b'/' ∷ join_parts parts_of =
        clean-rooted (root ++ b'/' ∷ s) (is_abs-append root (b'/' ∷ s) rooted)
        ∙ ap (λ parts. b'/' ∷ join_parts parts) (clean_parts-append root s rooted down) in
      sym (plugin_path_value root ref h)
      ∙ ap clean (file_join_lem root s down ∙ joined)
      ∙ clean-own parts_of parts-IsDown

  parse_back :
      {path : Str}
      → IsRegistryReference ref
      → plugin_path root ref ≡ ok path
      → parse_ref_from_path root path ≡ some ref
  unfolding parse_ref_from_path is_abs
  parse_back i h =
      let r : rel root (b'/' ∷ join_parts parts_of) ≡ some (show_reference ref) =
        rel-join root (b'/' ∷ join_parts parts_of) (show_reference ref) rooted refl down
          (clean_parts-join_parts parts_of parts-IsDown) in
      rw (path_value h, parse_ref_from_path, r, parse_plugin_reference-show_reference ref i) refl

last_or-snoc : (d x : Str) (parts : List Str) → last_or d (parts ++ x ∷ []) ≡ x
unfolding last_or
last_or-snoc d x [] = refl
last_or-snoc d x (p ∷ parts) = last_or-snoc p x parts

base-file_at :
    (parts : List Str) (x : Str) → All IsDown parts → Lacks b'/' x → base (file_at parts x) ≡ x
unfolding split last_or
base-file_at parts x h l = rw (split-lead parts x h l) (last_or-snoc [] x parts)

-- The visit of a stored plugin's binary.
visit-found :
    (json : Json) (root : Str) (disk : Disk) (ref : PluginReference) (plugin : PluginEntity)
    (path file : Str)
    → is_abs root ≡ true
    → IsRegistryReference ref
    → LeadsDown ref
    → plugin_path root ref ≡ ok path
    → find json root disk ref ≡ ok (plugin, file)
    → visit_plugin json root disk file ≡ plugin ∷ []
unfolding visit_plugin
visit-found json root disk ref plugin path file rooted i down target found =
    let parts = parts_of root ref rooted down in
    let all = parts-IsDown root ref rooted down in
    let d : IsDirectory path = record {
      parts = parts;
      whole = path_value root ref rooted down target;
      down = all;
    } in
    let (names, at, entry) = (find_view json root disk ref path plugin file target).0 found in
    let whole : file ≡ file_at parts (codes "plugin.wasm") = at ∙ wasm_file_lem d in
    let name : base file ≡ codes "plugin.wasm" =
      ap base whole ∙ base-file_at parts (codes "plugin.wasm") all wasm-IsDown.0.1 in
    let above : dir file ≡ path =
      ap dir whole
      ∙ dir-file_at parts (codes "plugin.wasm") all wasm-IsDown.0.1
      ∙ sym (path_value root ref rooted down target) in
    rw
      (
        name,
        text_eq_refl (codes "plugin.wasm"),
        above,
        parse_back root ref rooted down i target,
        found,
      )
      refl

module _ (plugin : PluginEntity) where
  abbrev IsListed : List PluginEntity → Type 0
  IsListed plugins = Any (λ p. p ≡ plugin) plugins

  IsListed-left : (xs ys : List PluginEntity) → IsListed xs → IsListed (xs ++ ys)
  IsListed-left [] ys r = elim r [ ]
  IsListed-left (x ∷ xs) ys (inl p) = inl p
  IsListed-left (x ∷ xs) ys (inr r) = inr (IsListed-left xs ys r)

  IsListed-right : (xs ys : List PluginEntity) → IsListed ys → IsListed (xs ++ ys)
  IsListed-right [] ys r = r
  IsListed-right (x ∷ xs) ys r = inr (IsListed-right xs ys r)

list_visited :
    (json : Json) (root : Str) (disk : Disk) (plugin : PluginEntity) (file : Str)
    (visits : List Visit)
    → visit_plugin json root disk file ≡ plugin ∷ []
    → Any (λ v. v ≡ visited file) visits
    → (list json root disk visits).1 ≡ true
    → Any (λ p. p ≡ plugin) (list json root disk visits).0
unfolding list
list_visited json root disk plugin file [] h there done = elim there [ ]
list_visited json root disk plugin file (walk_failed ∷ visits) h there done = absurd (cc done)
list_visited json root disk plugin file (visited path ∷ visits) h (inl e) done =
    let same : path ≡ file = cc e in
    IsListed-left plugin (visit_plugin json root disk path) _ (rw (same, h) (inl refl))
list_visited json root disk plugin file (visited path ∷ visits) h (inr there) done =
    IsListed-right plugin (visit_plugin json root disk path) _
      (list_visited json root disk plugin file visits h there done)

-- Under a rooted directory, where `Find` finds a plugin under a registry reference that reads back
-- from its text and leads nowhere but down, `List` returns that plugin, if the walk comes to its
-- end and visits the binary of the plugin.
pub list-Complete :
    (json : Json) (root : Str) (disk : Disk) (ref : PluginReference) (plugin : PluginEntity)
    (path file : Str) (visits : List Visit)
    → is_abs root ≡ true
    → IsRegistryReference ref
    → LeadsDown ref
    → plugin_path root ref ≡ ok path
    → find json root disk ref ≡ ok (plugin, file)
    → Any (λ v. v ≡ visited file) visits
    → (list json root disk visits).1 ≡ true
    → Any (λ p. p ≡ plugin) (list json root disk visits).0
list-Complete json root disk ref plugin path file visits rooted i down target found =
    list_visited json root disk plugin file visits
      (visit-found json root disk ref plugin path file rooted i down target found)
