-- ===== src/Plugin/Spec.antt =====
-- plugin/entities/plugin_spec.go: plugin declarations.
pub mod Parse
pub mod Examples
use reglet_hostlib.Base.{
  ◌≡◌, refl, Bool, true, false, ◌&&◌, not, Option, none, some, List, [], ◌∷◌, ◌++◌, if◌then◌else◌,
}
use reglet_hostlib.Base.Text.{
  Str, codes, text_eq, contains_byte, cut_at, cut_last, split, last_or, has_prefix,
}
use reglet_hostlib.Base.Map.{Map, lookup, insert}

pub record PluginSpec : Type 0 where
  pub name : Str
  pub source : Str
  pub version : Str
  pub digest : Str
  pub verify : Bool

unfoldable pub is_built_in : PluginSpec → Bool
is_built_in spec = not (contains_byte b'/' spec.source) && not (contains_byte b':' spec.source)

-- The parts of a declaration as they are cut off: what is left of it, and the digest or version.
abbrev keep : Str → Option (Str × Str) → Str × Str
keep s none = (s, [])
keep s (some (before, after)) = (before, after)

abbrev drop_at : Str → Str
drop_at [] = []
drop_at (c ∷ s) = s

-- "@sha256:abc" gives the digest "sha256:abc".
unfoldable pub cut_digest : Str → Str × Str
unfolding cut_at
cut_digest declaration = elim (cut_at (codes "@sha256:") declaration) [
  | none ↦ (declaration, [])
  | some (before, from) ↦ (before, drop_at from)
]

unfoldable pub cut_version : Str → Str × Str
unfolding cut_last
cut_version declaration = keep declaration (cut_last b'@' declaration)

-- The last path component, with its tag cut off.
unfoldable pub cut_tag : Str → Option (Str × Str)
unfolding split last_or cut_last
cut_tag declaration = cut_last b':' (last_or [] (split b'/' declaration))

abbrev source_with_digest : Str → Str → Str → Str
source_with_digest declaration before [] = declaration
source_with_digest declaration before (c ∷ digest) = before ++ b'@' ∷ c ∷ digest

-- What is cut off, in the order of the code: digest, version, and the tag of a registry path.
abbrev oci_spec : Str → Str → Str → Str → Option (Str × Str) → PluginSpec
oci_spec source version digest last none = record {
  name = last;
  source = source;
  version = version;
  digest = digest;
  verify = false;
}
oci_spec source version digest last (some (name, tag)) = record {
  name = name;
  source = source;
  version = tag;
  digest = digest;
  verify = false;
}

abbrev simple_spec : Str → Str → Str → Str → PluginSpec
simple_spec source version digest name = record {
  name = name;
  source = if text_eq version [] then source else name;
  version = version;
  digest = digest;
  verify = false;
}

-- ParsePluginDeclaration; `none` is the error on an empty declaration.
unfoldable pub parse_plugin_declaration : Str → Option PluginSpec
unfolding text_eq cut_digest cut_version cut_tag contains_byte split last_or
parse_plugin_declaration declaration =
    let (before, digest) = cut_digest declaration in
    let source = source_with_digest declaration before digest in
    let (name, version) = cut_version before in
    if text_eq declaration []
    then none
    else if contains_byte b'/' name
    then some (oci_spec source version digest (last_or [] (split b'/' name)) (cut_tag name))
    else some (simple_spec source version digest name)

-- PluginName()
abbrev before_or : Str → Option (Str × Str) → Str
before_or s none = s
before_or s (some (before, after)) = before

unfoldable pub plugin_name : PluginSpec → Str
unfolding cut_at cut_last contains_byte split last_or
plugin_name spec =
    let bare = before_or spec.source (cut_at (codes "@sha256:") spec.source) in
    let source = before_or bare (cut_last b'@' bare) in
    let simple = before_or source (cut_last b':' source) in
    let component = last_or [] (split b'/' source) in
    if contains_byte b'/' source then before_or component (cut_last b':' component) else simple

-- PluginRegistry: aliases and their specifications; `none` is an error.
unfoldable pub register : PluginSpec → Map PluginSpec → Option (Map PluginSpec)
unfolding text_eq insert
register spec specs =
    if text_eq spec.name []
    then none
    else if text_eq spec.source []
    then none
    else some (insert spec.name spec specs)

abbrev default_spec : Str → PluginSpec
default_spec alias = record {
  name = alias;
  source = alias;
  version = [];
  digest = [];
  verify = false;
}

unfoldable pub resolve : Map PluginSpec → Str → PluginSpec
unfolding lookup
resolve specs alias = elim (lookup alias specs) [ some spec ↦ spec | none ↦ default_spec alias ]

unfoldable pub has_plugin : Map PluginSpec → Str → Bool
unfolding lookup
has_plugin specs name = elim (lookup name specs) [ some spec ↦ true | none ↦ false ]
