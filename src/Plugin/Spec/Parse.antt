-- ===== src/Plugin/Spec/Parse.antt =====
-- What `ParsePluginDeclaration` makes of a name with a version, and of a bare name.
use reglet_hostlib.Base.{
  ◌≡◌, refl, ◌∙◌, ◌≢◌, inl, inr, false, none, some, [], ◌∷◌, ◌++◌, arith, Bool-cases,
}
use reglet_hostlib.Base.Text.{
  Str, codes, text_eq, text_eq_iff, contains_byte, Lacks, cut_at-Lacks, cut_last-append,
  Lacks-append, cut_at,
}
use reglet_hostlib.Plugin.Spec.{parse_plugin_declaration, cut_digest, cut_version, simple_spec}

cut_digest-Lacks : (s : Str) → Lacks b':' s → cut_digest s ≡ (s, [])
unfolding cut_digest
cut_digest-Lacks s h =
    let no_digest : cut_at (codes "@sha256:") s ≡ none =
      cut_at-Lacks b':' (codes "@sha256:") s h (unfold contains_byte in refl) in
    rw (cut_digest, no_digest) refl

-- What a declaration with no digest parses to, by its cut at the last "@".
simple_declaration :
    (declaration name version : Str)
    → declaration ≢ []
    → Lacks b':' declaration
    → cut_version declaration ≡ (name, version)
    → Lacks b'/' name
    → parse_plugin_declaration declaration ≡ some (simple_spec declaration version [] name)
unfolding parse_plugin_declaration
simple_declaration declaration name version n h e simple =
    let given : text_eq declaration [] ≡ false = elim (Bool-cases (text_eq declaration [])) [
      | inl t ↦ absurd (n ((text_eq_iff declaration []).0 t))
      | inr f ↦ f
    ] in
    rw (cut_digest-Lacks declaration h, e, given, simple) refl

append-ne-nil : (s t : Str) → s ++ b'@' ∷ t ≢ []
append-ne-nil [] t h = cc h
append-ne-nil (c ∷ s) t h = cc h

cut_version-append :
    (name version : Str)
    → Lacks b'@' version
    → cut_version (name ++ b'@' ∷ version) ≡ (name, version)
unfolding cut_version
cut_version-append name version at =
    let found = cut_last-append b'@' name version at in rw (cut_version, found) refl

versioned :
    (name version declaration : Str)
    → version ≢ []
    → some (simple_spec declaration version [] name)
      ≡ some (record { name = name; source = name; version = version; digest = []; verify = false })
unfolding text_eq
versioned name [] declaration n = absurd (n refl)
versioned name (c ∷ version) declaration n = refl

-- A declaration NAME@VERSION, with no slash in the name, no colon in either, and no "@" in the
-- version, which is not empty, parses to the plugin of that name in that version.
pub parse_named :
    (name version : Str)
    → Lacks b'/' name
    → Lacks b':' name
    → Lacks b':' version
    → Lacks b'@' version
    → version ≢ []
    → parse_plugin_declaration (name ++ b'@' ∷ version)
      ≡ some (record { name = name; source = name; version = version; digest = []; verify = false })
parse_named name version slash colon colon' at n =
    simple_declaration (name ++ b'@' ∷ version) name version (append-ne-nil name version)
      (Lacks-append b':' b'@' name version colon colon' (omega arith))
      (cut_version-append name version at) slash
    ∙ versioned name version (name ++ b'@' ∷ version) n
