-- ===== src/Plugin/Repository/Entries.antt =====
-- The repository as an abstract cache, which has at most one entry for each directory.
use reglet_hostlib.Base.{
  ◌≡◌, refl, ◌≢◌, ap, sym, ◌∙◌, Bool, false, ◌||◌, Option, some, none, List, [], ◌∷◌, ◌++◌, arith,
}
use reglet_hostlib.Base.Text.{Str, text_eq, text_eq_iff, text_eq_refl, split}
use reglet_hostlib.Base.Map.{lookup}
use reglet_hostlib.Policy.Filepath.{join_parts}
use reglet_hostlib.Policy.Paths.{IsDown}
use reglet_hostlib.Plugin.Values.{Digest}
use reglet_hostlib.Plugin.Repository.{
  PluginEntity, PluginMetadata, Json, Disk, Machine, Result, ok, err, wasm_file, metadata_file,
  saved_digest_file, loaded_digest_file, load_metadata, load_digest, store_at,
}
use reglet_hostlib.Plugin.Repository.Paths.{IsDirectory, split-lead}
use reglet_hostlib.Plugin.Repository.Files.{
  file_at, wasm-IsDown, metadata-IsDown, digest-IsDown, wasm_file_lem, metadata_file_lem,
  saved_digest_file_lem, loaded_digest_file_lem,
}
use reglet_hostlib.Plugin.Repository.Writes.{IsKept, store_at-IsKept}

snoc_Injective : (xs ys : List Str) (x y : Str) → xs ++ x ∷ [] ≡ ys ++ y ∷ [] → xs ≡ ys
snoc_Injective [] [] x y e = refl
snoc_Injective [] (b ∷ []) x y e = absurd (cc e)
snoc_Injective [] (b ∷ c ∷ ys) x y e = absurd (cc e)
snoc_Injective (a ∷ []) [] x y e = absurd (cc e)
snoc_Injective (a ∷ c ∷ xs) [] x y e = absurd (cc e)
snoc_Injective (a ∷ xs) (b ∷ ys) x y e = cc (e, snoc_Injective xs ys x y (cc e))

-- Files of two directories are not the same.
file_at-apart :
    {path other : Str} (d : IsDirectory path) (o : IsDirectory other) (x y : Str)
    → other ≢ path
    → IsDown x
    → IsDown y
    → file_at d.parts x ≢ file_at o.parts y
file_at-apart d o x y n i j e =
    let same : d.parts ≡ o.parts = snoc_Injective d.parts o.parts x y (
      sym (split-lead d.parts x d.down i.0.1)
      ∙ ap (split b'/') (cc e)
      ∙ split-lead o.parts y o.down j.0.1) in
    n (o.whole ∙ ap (λ parts. b'/' ∷ join_parts parts) (sym same) ∙ sym d.whole)

-- The three files of a plugin.
abbrev is_own : Str → Str → Bool
is_own path file =
    text_eq (wasm_file path) file
    || (text_eq (metadata_file path) file || text_eq (saved_digest_file path) file)

or3_false : (a b c : Bool) → a ≡ false → b ≡ false → c ≡ false → (a || (b || c)) ≡ false
or3_false a b c p q r = ground (arith, p, q, r)

text_eq-ne : (s t : Str) → s ≢ t → text_eq s t ≡ false
text_eq-ne s t n = ground (arith, text_eq_iff s t)

is_own-other :
    {path other : Str} (d : IsDirectory path) (o : IsDirectory other) (y : Str)
    → other ≢ path
    → IsDown y
    → is_own path (file_at o.parts y) ≡ false
is_own-other d o y n j =
    or3_false _ _ _
      (text_eq-ne _ _ (λ e. file_at-apart d o _ y n wasm-IsDown j (sym (wasm_file_lem d) ∙ e)))
      (text_eq-ne _ _
        (λ e. file_at-apart d o _ y n metadata-IsDown j (sym (metadata_file_lem d) ∙ e)))
      (text_eq-ne _ _
        (λ e. file_at-apart d o _ y n digest-IsDown j (sym (saved_digest_file_lem d) ∙ e)))

pub record CacheEntry : Type 0 where
  pub binary : Str
  pub metadata : PluginMetadata
  pub digest : Digest

abbrev pub Cache : Type 0
Cache = Str → Option CacheEntry

abbrev pub entry_of : Option Str → Result PluginMetadata → Result Digest → Option CacheEntry
entry_of none metadata digest = none
entry_of (some binary) (err e) digest = none
entry_of (some binary) (ok metadata) (err e) = none
entry_of (some binary) (ok metadata) (ok digest) =
    some (record { binary = binary; metadata = metadata; digest = digest })

-- The entry that a disk has for a directory, if all three files can be read.
abbrev pub view : Json → Disk → Cache
view json disk path =
    entry_of (lookup (wasm_file path) disk) (load_metadata json disk path) (load_digest disk path)

load_metadata-same :
    (json : Json) (before after : Disk) (path : Str)
    → lookup (metadata_file path) after ≡ lookup (metadata_file path) before
    → load_metadata json after path ≡ load_metadata json before path
unfolding load_metadata
load_metadata-same json before after path h = rw h refl

load_digest-same :
    (before after : Disk) (path : Str)
    → lookup (loaded_digest_file path) after ≡ lookup (loaded_digest_file path) before
    → load_digest after path ≡ load_digest before path
unfolding load_digest
load_digest-same before after path h = rw h refl

-- Store changes the entry of no other directory, however far it gets.
pub store_at-other :
    (json : Json) (machine : Machine) (plugin : PluginEntity) (wasm : Str) (disk : Disk)
    {path other : Str}
    → IsDirectory path
    → IsDirectory other
    → other ≢ path
    → view json (store_at json machine path plugin wasm disk).0 other ≡ view json disk other
store_at-other json machine plugin wasm disk {path} {other} d o n =
    let after = (store_at json machine path plugin wasm disk).0 in
    let kept : IsKept (is_own path) disk after =
      store_at-IsKept (is_own path) path (ground (arith, text_eq_refl (wasm_file path)))
        (ground (arith, text_eq_refl (metadata_file path)))
        (ground (arith, text_eq_refl (saved_digest_file path))) json machine plugin wasm disk in
    let same : (y : Str)
        → IsDown y
        → lookup (file_at o.parts y) after ≡ lookup (file_at o.parts y) disk =
      λ y j. kept (file_at o.parts y) (is_own-other d o y n j) in
    let binary : lookup (wasm_file other) after ≡ lookup (wasm_file other) disk =
      rw (wasm_file_lem o) (same _ wasm-IsDown) in
    let metadata : load_metadata json after other ≡ load_metadata json disk other =
      load_metadata-same json disk after other
        (rw (metadata_file_lem o) (same _ metadata-IsDown)) in
    let digest : load_digest after other ≡ load_digest disk other =
      load_digest-same disk after other
        (rw (loaded_digest_file_lem o, saved_digest_file_lem o) (same _ digest-IsDown)) in
    rw (binary, metadata, digest) refl
