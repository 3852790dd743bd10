-- ===== src/Plugin/Values/References.antt =====
-- Plugin references: parsing undoes printing.
use reglet_hostlib.Base.{ℕ, ◌≡◌, refl, ◌≢◌, inl, inr, true, [], ◌∷◌, ◌++◌, arith, Bool-cases}
use reglet_hostlib.Base.Text.{
  Str, text_eq, text_eq_iff, contains_byte, contains_byte-append, Lacks, split, split-append,
  split-Lacks, split_two_complete, last_or,
}
use reglet_hostlib.Plugin.Values.{
  PluginReference, parse_plugin_reference, is_embedded, show_reference,
}

-- The parts of a registry reference, as it is written: none holds a slash, and the name and the
-- version hold no colon.
pub record IsRegistryReference (r : PluginReference) : Type 0 where
  pub has_registry : r.registry ≢ []
  pub registry : Lacks b'/' r.registry
  pub org : Lacks b'/' r.org
  pub repo : Lacks b'/' r.repo
  pub name : Lacks b'/' r.name
  pub version : Lacks b'/' r.version
  pub untagged_name : Lacks b':' r.name
  pub untagged_version : Lacks b':' r.version

Lacks-tagged :
    (b : ℕ) (name version : Str)
    → Lacks b name
    → Lacks b version
    → b ≢ b':'
    → Lacks b (name ++ b':' ∷ version)
unfolding contains_byte
Lacks-tagged b [] version p q n = ground arith
Lacks-tagged b (c ∷ name) version p q n = ground (arith, Lacks-tagged b name version)

show_registry :
    (r : PluginReference)
    → r.registry ≢ []
    → show_reference r
      ≡ r.registry ++ b'/' ∷ (r.org ++ b'/' ∷ (r.repo ++ b'/' ∷ (r.name ++ b':' ∷ r.version)))
unfolding show_reference is_embedded
show_registry r n = elim (Bool-cases (text_eq r.registry [])) [
  | inl e ↦ absurd (n ((text_eq_iff r.registry []).0 e))
  | inr e ↦ rw e refl
]

split-show :
    (r : PluginReference)
    → IsRegistryReference r
    → split b'/' (show_reference r)
      ≡ r.registry ∷ r.org ∷ r.repo ∷ (r.name ++ b':' ∷ r.version) ∷ []
split-show r i =
    rw
      (
        show_registry r i.has_registry,
        split-append b'/' r.registry _ i.registry,
        split-append b'/' r.org _ i.org,
        split-append b'/' r.repo _ i.repo,
        split-Lacks b'/' (r.name ++ b':' ∷ r.version)
            (Lacks-tagged b'/' r.name r.version i.name i.version (λ h. cc h)),
      )
      refl

-- A registry reference whose parts hold no slash, and whose name and version hold no colon, is read
-- back from its text.
pub parse_plugin_reference-show_reference :
    (r : PluginReference)
    → IsRegistryReference r
    → parse_plugin_reference (show_reference r) ≡ inr r
unfolding parse_plugin_reference last_or
parse_plugin_reference-show_reference r i =
    let slash : contains_byte b'/' (show_reference r) ≡ true =
      rw (show_registry r i.has_registry) (contains_byte-append b'/' r.registry _) in
    let parts = split-show r i in
    let tag = split_two_complete b':' r.name r.version i.untagged_name i.untagged_version in
    rw (parse_plugin_reference, slash, parts, tag) refl
