-- ===== src/Plugin/Repository/Writes.antt =====
-- Which files Store writes, however far it gets.
use reglet_hostlib.Base.{◌≡◌, refl, ap, ◌∙◌, Bool, true, false}
use reglet_hostlib.Base.Text.{Str}
use reglet_hostlib.Base.Map.{lookup, insert, lookup-insert_ne}
use reglet_hostlib.Plugin.Values.{show_digest}
use reglet_hostlib.Plugin.Repository.{
  PluginEntity, Json, Disk, Machine, Outcome, not_opened, partial, complete, Result, ok, written,
  write_file, wasm_file, metadata_file, saved_digest_file, store_at, save_digest, save_metadata,
}

-- No file differs but those of the test.
abbrev pub IsKept : (Str → Bool) → Disk → Disk → Type 0
IsKept touched before after =
    (file : Str) → touched file ≡ false → lookup file after ≡ lookup file before

insert-IsKept :
    (touched : Str → Bool) (file content : Str) (before after : Disk)
    → touched file ≡ true
    → IsKept touched before after
    → IsKept touched before (insert file content after)
insert-IsKept touched file content before after inner h other outer =
    lookup-insert_ne file other content after (λ e. cc (ap (λ f. touched f) e, inner, outer))
    ∙ h other outer

written-IsKept :
    (touched : Str → Bool) (o : Outcome) (file content : Str) (before disk : Disk)
    (next : Disk → Disk × Result Str)
    → touched file ≡ true
    → IsKept touched before disk
    → (IsKept touched before (insert file content disk)
        → IsKept touched before (next (insert file content disk)).0)
    → IsKept touched before (written o file content disk next).0
written-IsKept touched not_opened file content before disk next inner h k = h
written-IsKept touched (partial start) file content before disk next inner h k =
    insert-IsKept touched file start before disk inner h
written-IsKept touched complete file content before disk next inner h k =
    k (insert-IsKept touched file content before disk inner h)

module _ (touched : Str → Bool) (path : Str) (on_wasm : touched (wasm_file path) ≡ true)
    (on_metadata : touched (metadata_file path) ≡ true)
    (on_digest : touched (saved_digest_file path) ≡ true) where
  save_digest-IsKept :
      (machine : Machine) (plugin : PluginEntity) (before disk : Disk)
      → IsKept touched before disk
      → IsKept touched before (save_digest machine path plugin disk).0
  unfolding write_file
  save_digest-IsKept machine plugin before disk h =
      written-IsKept touched (machine.writes (saved_digest_file path) (show_digest plugin.digest))
        (saved_digest_file path) (show_digest plugin.digest) before disk
        (λ after. (after, ok (wasm_file path))) on_digest h (λ c. c)

  save_metadata-IsKept :
      (json : Json) (machine : Machine) (plugin : PluginEntity) (before disk : Disk)
      → IsKept touched before disk
      → IsKept touched before (save_metadata json machine path plugin disk).0
  unfolding write_file
  save_metadata-IsKept json machine plugin before disk h =
      written-IsKept touched (machine.writes (metadata_file path) (json.encode plugin.metadata))
        (metadata_file path) (json.encode plugin.metadata) before disk
        (save_digest machine path plugin) on_metadata h
        (save_digest-IsKept machine plugin before
          (insert (metadata_file path) (json.encode plugin.metadata) disk))

  pub store_at-IsKept :
      (json : Json) (machine : Machine) (plugin : PluginEntity) (wasm : Str) (disk : Disk)
      → IsKept touched disk (store_at json machine path plugin wasm disk).0
  unfolding store_at write_file
  store_at-IsKept json machine plugin wasm disk =
      written-IsKept touched (machine.writes (wasm_file path) wasm) (wasm_file path) wasm disk disk
        (save_metadata json machine path plugin) on_wasm (λ file outer. refl)
        (save_metadata-IsKept json machine plugin disk (insert (wasm_file path) wasm disk))
