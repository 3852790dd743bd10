-- ===== src/Plugin/Repository/Listing/Examples.antt =====
-- Listing the cache under /c.
use reglet_hostlib.Base.{◌≡◌, refl, ap, inl, inr, true, none, some, List, [], ◌∷◌, Any}
use reglet_hostlib.Base.Text.{
  codes, text_eq, split, contains_byte, cut, cut_last, last_or, has_prefix,
}
use reglet_hostlib.Base.Map.{lookup}
use reglet_hostlib.Policy.Filepath.{
  is_abs, clean, clean_parts, clean_from, clean_step, join, join_parts,
}
use reglet_hostlib.Plugin.Values.{
  new_digest, parse_digest, is_embedded, show_reference, parse_plugin_reference,
}
use reglet_hostlib.Plugin.Values.References.{IsRegistryReference}
use reglet_hostlib.Plugin.Repository.{
  ok, plugin_path, find, load_metadata, load_digest, new_fs_plugin_repository,
}
use reglet_hostlib.Plugin.Repository.Examples.{
  root_dir, name_json, good_machine, file_ref, file_plugin, stored_disk, file_path, file_dir,
  plugin_path_lem, found_lem,
}
use reglet_hostlib.Plugin.Repository.Listing.{
  dir, rel, parse_ref_from_path, visit_plugin, Visit, visited, list,
}
use reglet_hostlib.Plugin.Repository.Listing.Walked.{LeadsDown, list-Complete}

abbrev walk : List Visit
walk = visited (codes "/c") ∷ visited (codes "/c/g/o/r/f:1/digest.txt") ∷ visited file_path ∷ []

rel_tests :
    (rel (codes "/c") (codes "/c/g/o") ≡ some (codes "g/o"))
    × (rel (codes "/c/a") (codes "/c/b") ≡ some (codes "../b"))
    × (rel (codes "/c") (codes "/c") ≡ some (codes "."))
    × (rel (codes "c") (codes "/c") ≡ none)
unfolding rel clean_parts clean_from clean_step split is_abs text_eq join_parts
rel_tests = (refl, refl, refl, refl)

home_test :
    new_fs_plugin_repository good_machine (codes "/home/u") []
    ≡ ok (codes "/home/u/.reglet/plugins")
unfolding new_fs_plugin_repository text_eq join
home_test = refl

walk_lem : list name_json root_dir stored_disk walk ≡ (file_plugin ∷ [], true)
unfolding list visit_plugin parse_ref_from_path dir rel clean_parts clean_from clean_step split
    is_abs text_eq join_parts cut_last last_or clean join has_prefix parse_plugin_reference
    contains_byte find plugin_path show_reference is_embedded lookup load_metadata load_digest
    parse_digest new_digest cut
walk_lem = refl

file_ref-IsRegistryReference : IsRegistryReference file_ref
unfolding contains_byte
file_ref-IsRegistryReference = record {
  has_registry = λ e. cc e;
  registry = refl;
  org = refl;
  repo = refl;
  name = refl;
  version = refl;
  untagged_name = refl;
  untagged_version = refl;
}

file_ref-LeadsDown : LeadsDown file_ref
unfolding split show_reference is_embedded text_eq contains_byte
file_ref-LeadsDown = (
  (((λ e. cc e), refl), (λ e. cc e), (λ e. cc e)),
  (
    (((λ e. cc e), refl), (λ e. cc e), (λ e. cc e)),
    (
      (((λ e. cc e), refl), (λ e. cc e), (λ e. cc e)),
      ((((λ e. cc e), refl), (λ e. cc e), (λ e. cc e)), tt),
    ),
  ),
)

list-Complete_example : Any (λ p. p ≡ file_plugin) (list name_json root_dir stored_disk walk).0
list-Complete_example =
    list-Complete name_json root_dir stored_disk file_ref file_plugin file_dir file_path walk
      (unfold is_abs in refl) file_ref-IsRegistryReference file_ref-LeadsDown plugin_path_lem
      found_lem (inr (inr (inl refl))) (ap (λ r. r.1) walk_lem)
