-- ===== src/Plugin/Repository/Files.antt =====
-- The three files of a plugin: the four ways the code writes a path name three different files.
use mathlib.Core.List.{append_cancel_left}
use reglet_hostlib.Base.{false, arith, ◌≡◌, refl, ◌≢◌, ap, sym, ◌∙◌, List, ◌∷◌, ◌++◌}
use reglet_hostlib.Base.Text.{Str, codes, text_eq, text_eq_iff, contains_byte}
use reglet_hostlib.Policy.Filepath.{clean, join}
use reglet_hostlib.Policy.Paths.{IsDown}
use reglet_hostlib.Plugin.Repository.{
  wasm_file, metadata_file, saved_digest_file, loaded_digest_file,
}
use reglet_hostlib.Plugin.Repository.Paths.{IsDirectory, lead, join-lead, clean-lead}

abbrev pub file_at : List Str → Str → Str
file_at parts x = b'/' ∷ (lead parts ++ x)

file_at-ne :
    (parts : List Str) (x y : Str) → text_eq x y ≡ false → file_at parts x ≢ file_at parts y
file_at-ne parts x y n e =
    let same : x ≡ y = append_cancel_left (lead parts) x y (cc e) in ground (arith, text_eq_iff x y)

pub wasm-IsDown : IsDown (codes "plugin.wasm")
unfolding contains_byte
wasm-IsDown = (((λ e. cc e), refl), (λ e. cc e), (λ e. cc e))

pub metadata-IsDown : IsDown (codes "metadata.json")
unfolding contains_byte
metadata-IsDown = (((λ e. cc e), refl), (λ e. cc e), (λ e. cc e))

pub digest-IsDown : IsDown (codes "digest.txt")
unfolding contains_byte
digest-IsDown = (((λ e. cc e), refl), (λ e. cc e), (λ e. cc e))

module _ {path : Str} (d : IsDirectory path) where
  join-file_at : (x : Str) → IsDown x → join path x ≡ file_at d.parts x
  join-file_at x i = rw d.whole (join-lead d.parts x d.down i)

  clean-file_at : (x : Str) → IsDown x → clean (join path x) ≡ file_at d.parts x
  clean-file_at x i = ap clean (join-file_at x i) ∙ clean-lead d.parts x d.down i

  pub wasm_file_lem : wasm_file path ≡ file_at d.parts (codes "plugin.wasm")
  wasm_file_lem = join-file_at (codes "plugin.wasm") wasm-IsDown

  pub metadata_file_lem : metadata_file path ≡ file_at d.parts (codes "metadata.json")
  metadata_file_lem = clean-file_at (codes "metadata.json") metadata-IsDown

  pub saved_digest_file_lem : saved_digest_file path ≡ file_at d.parts (codes "digest.txt")
  saved_digest_file_lem = join-file_at (codes "digest.txt") digest-IsDown

  -- The digest is loaded from where it was saved.
  pub loaded_digest_file_lem : loaded_digest_file path ≡ saved_digest_file path
  loaded_digest_file_lem =
      clean-file_at (codes "digest.txt") digest-IsDown ∙ sym saved_digest_file_lem

  pub wasm-metadata : wasm_file path ≢ metadata_file path
  wasm-metadata =
      rw (wasm_file_lem, metadata_file_lem)
        (file_at-ne d.parts (codes "plugin.wasm") (codes "metadata.json") (unfold text_eq in refl))

  pub wasm-digest : wasm_file path ≢ saved_digest_file path
  wasm-digest =
      rw (wasm_file_lem, saved_digest_file_lem)
        (file_at-ne d.parts (codes "plugin.wasm") (codes "digest.txt") (unfold text_eq in refl))

  pub metadata-digest : metadata_file path ≢ saved_digest_file path
  metadata-digest =
      rw (metadata_file_lem, saved_digest_file_lem)
        (file_at-ne d.parts (codes "metadata.json") (codes "digest.txt") (unfold text_eq in refl))
