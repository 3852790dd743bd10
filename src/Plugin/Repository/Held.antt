-- ===== src/Plugin/Repository/Held.antt =====
-- Find, by the files that the disk holds.
use reglet_hostlib.Base.{
  ◌≡◌, refl, ◌≢◌, ◌↔◌, ap, sym, ◌∙◌, ◌⊎◌, inl, inr, true, Option, some, none, ◌++◌,
}
use reglet_hostlib.Base.Text.{Str, codes}
use reglet_hostlib.Base.Map.{lookup}
use reglet_hostlib.Policy.Filepath.{is_abs, clean}
use reglet_hostlib.Plugin.Values.{Digest, DigestError, PluginReference, show_digest, parse_digest}
use reglet_hostlib.Plugin.Values.Digests.{IsSupported, parse_digest_iff}
use reglet_hostlib.Plugin.Repository.{
  PluginEntity, PluginMetadata, RepositoryError, Json, Disk, Result, ok, err, ◌>>=◌, or_error,
  parsed, plugin_path, wasm_file, metadata_file, loaded_digest_file, load_metadata, load_digest,
  find,
}
use reglet_hostlib.Plugin.Repository.Paths.{IsDirectory, IsDirectory-clean, plugin_path-IsDirectory}
use reglet_hostlib.Plugin.Repository.Files.{
  wasm_file_lem, metadata_file_lem, saved_digest_file_lem, loaded_digest_file_lem,
}
use reglet_hostlib.Plugin.Repository.Confined.{file_at-path, within-ne-slash}
use reglet_hostlib.Plugin.Repository.Entries.{CacheEntry, entry_of}
use reglet_hostlib.Plugin.Repository.Refinement.{find_view}

-- The directory has a binary, metadata that decode to those of the plugin, and the text of the
-- plugin's digest, whose algorithm is supported.
pub record IsHeld (json : Json) (disk : Disk) (path : Str) (plugin : PluginEntity) : Type 0 where
  pub binary : Str
  pub text : Str
  pub has_binary : lookup (path ++ codes "/plugin.wasm") disk ≡ some binary
  pub has_metadata : lookup (path ++ codes "/metadata.json") disk ≡ some text
  pub decodes : json.decode text ≡ some plugin.metadata
  pub has_digest : lookup (path ++ codes "/digest.txt") disk ≡ some (show_digest plugin.digest)
  pub supported : IsSupported plugin.digest.algorithm

pub record IsFound (json : Json) (disk : Disk) (ref : PluginReference) (path : Str)
    (plugin : PluginEntity) (file : Str) : Type 0 where
  pub names : plugin.reference ≡ ref
  pub at : file ≡ path ++ codes "/plugin.wasm"
  pub held : IsHeld json disk path plugin

or_error_ok :
    {A : Type 0} (e : RepositoryError) (o : Option A) {a : A} → or_error e o ≡ ok a → o ≡ some a
or_error_ok e none h = absurd (cc h)
or_error_ok e (some b) h = cc h

bound :
    {A B : Type 0} (r : Result A) (next : A → Result B) {b : B}
    → (r >>= next) ≡ ok b
    → (a : A) × (r ≡ ok a) × (next a ≡ ok b)
bound (err e) next h = absurd (cc h)
bound (ok a) next h = (a, refl, h)

parsed_ok : (r : DigestError ⊎ Digest) {d : Digest} → parsed r ≡ ok d → r ≡ inr d
parsed_ok (inl e) h = absurd (cc h)
parsed_ok (inr d) h = cc h

entry_of-some :
    (binary : Option Str) (loaded : Result PluginMetadata) (digest : Result Digest) {c : CacheEntry}
    → entry_of binary loaded digest ≡ some c
    → (binary ≡ some c.binary) × (loaded ≡ ok c.metadata) × (digest ≡ ok c.digest)
entry_of-some none loaded digest h = absurd (cc h)
entry_of-some (some b) (err e) digest h = absurd (cc h)
entry_of-some (some b) (ok m) (err e) h = absurd (cc h)
entry_of-some (some b) (ok m) (ok d) h = (cc h, cc h, cc h)

load_metadata_iff :
    (json : Json) (disk : Disk) (path : Str) (m : PluginMetadata)
    → (load_metadata json disk path ≡ ok m) ↔ (
        (text : Str) × (lookup (metadata_file path) disk ≡ some text) × (json.decode text ≡ some m))
unfolding load_metadata
load_metadata_iff json disk path m = (
  λ h.
      let (text, there, read) = bound (or_error _ (lookup (metadata_file path) disk)) _ h in
      (
        text,
        or_error_ok _ (lookup (metadata_file path) disk) there,
        or_error_ok _ (json.decode text) read,
      ),
  λ (text, there, read). rw (there, load_metadata, read) refl,
)

load_digest_iff :
    (disk : Disk) (path : Str) (d : Digest)
    → (load_digest disk path ≡ ok d)
      ↔ ((lookup (loaded_digest_file path) disk ≡ some (show_digest d)) × IsSupported d.algorithm)
unfolding load_digest
load_digest_iff disk path d = (
  λ h.
      let (text, there, read) = bound (or_error _ (lookup (loaded_digest_file path) disk)) _ h in
      let (whole, supported) = (parse_digest_iff text d).0 (parsed_ok (parse_digest text) read) in
      (or_error_ok _ (lookup (loaded_digest_file path) disk) there ∙ ap some whole, supported),
  λ (there, supported).
      rw (there, load_digest, (parse_digest_iff (show_digest d) d).1 (refl, supported)) refl,
)

module _ {path : Str} (d : IsDirectory path) (n : path ≢ codes "/") where
  wasm_file_at : wasm_file path ≡ path ++ codes "/plugin.wasm"
  wasm_file_at = wasm_file_lem d ∙ file_at-path d (codes "plugin.wasm") n

  metadata_file_at : metadata_file path ≡ path ++ codes "/metadata.json"
  metadata_file_at = metadata_file_lem d ∙ file_at-path d (codes "metadata.json") n

  digest_file_at : loaded_digest_file path ≡ path ++ codes "/digest.txt"
  digest_file_at =
      loaded_digest_file_lem d ∙ saved_digest_file_lem d ∙ file_at-path d (codes "digest.txt") n

-- Under a rooted directory other than "/", `Find` under an accepted reference returns a plugin and
-- a path exactly if this is the path of plugin.wasm in the directory of the reference, the plugin
-- has that reference, and the directory holds a binary there, a metadata.json that decodes to the
-- metadata of the plugin, and a digest.txt with the text of its digest, whose algorithm is
-- supported.
pub find_iff :
    (json : Json) (root : Str) (disk : Disk) (ref : PluginReference) (path : Str)
    (plugin : PluginEntity) (file : Str)
    → is_abs root ≡ true
    → clean root ≢ codes "/"
    → plugin_path root ref ≡ ok path
    → (find json root disk ref ≡ ok (plugin, file)) ↔ IsFound json disk ref path plugin file
find_iff json root disk ref path plugin file rooted proper target =
    let (d, inner) = plugin_path-IsDirectory root ref rooted target in
    let n = within-ne-slash (IsDirectory-clean root rooted) proper inner in
    let iff = find_view json root disk ref path plugin file target in
    (
      λ h.
          let (names, at, (binary, entry)) = iff.0 h in
          let (b, m, g) = entry_of-some (lookup (wasm_file path) disk) _ _ entry in
          let (text, there, decodes) = (load_metadata_iff json disk path plugin.metadata).0 m in
          let (digest, supported) = (load_digest_iff disk path plugin.digest).0 g in
          record {
            names = names;
            at = at ∙ wasm_file_at d n;
            held = record {
              binary = binary;
              text = text;
              has_binary = ap (λ f. lookup f disk) (sym (wasm_file_at d n)) ∙ b;
              has_metadata = ap (λ f. lookup f disk) (sym (metadata_file_at d n)) ∙ there;
              decodes = decodes;
              has_digest = ap (λ f. lookup f disk) (sym (digest_file_at d n)) ∙ digest;
              supported = supported;
            };
          },
      λ f.
          let b = ap (λ x. lookup x disk) (wasm_file_at d n) ∙ f.held.has_binary in
          let m = (load_metadata_iff json disk path plugin.metadata).1 (
            f.held.text,
            ap (λ x. lookup x disk) (metadata_file_at d n) ∙ f.held.has_metadata,
            f.held.decodes,
          ) in
          let g =
            (load_digest_iff disk path plugin.digest).1 (
              ap (λ x. lookup x disk) (digest_file_at d n) ∙ f.held.has_digest,
              f.held.supported,
            ) in
          iff.1 (f.names, f.at ∙ sym (wasm_file_at d n), (f.held.binary, rw (b, m, g) refl)),
    )
