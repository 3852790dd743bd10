-- ===== src/Plugin/Values/Examples.antt =====
-- The theorems on digests, names and references at concrete inputs.
use reglet_hostlib.Base.{◌≡◌, refl, ◌↔◌, inl, inr, ◌++◌}
use reglet_hostlib.Base.Text.{codes, contains_byte, split, last_or}
use reglet_hostlib.Plugin.Values.{
  Digest, Hashes, PluginReference, parse_digest, show_digest, parse_plugin_reference,
  show_reference, missing_version,
}
use reglet_hostlib.Plugin.Values.Digests.{IsSupported, parse_digest_iff}
use reglet_hostlib.Plugin.Values.References.{
  IsRegistryReference, parse_plugin_reference-show_reference,
}

abbrev digest : Digest
digest = record { algorithm = codes "sha256"; value = codes "ab" }

-- Hashes that are told apart by a mark.
abbrev hashes : Hashes
hashes = record { sha256 = λ s. codes "1" ++ s; sha512 = λ s. codes "2" ++ s }

parse_digest_iff_example :
    (parse_digest (codes "sha256:ab") ≡ inr digest)
    ↔ ((codes "sha256:ab" ≡ show_digest digest) × IsSupported digest.algorithm)
parse_digest_iff_example = parse_digest_iff (codes "sha256:ab") digest

abbrev reference : PluginReference
reference = record {
  registry = codes "ghcr.io:443";
  org = codes "o";
  repo = codes "r";
  name = codes "file";
  version = codes "1.0.2";
}

reference-IsRegistryReference : IsRegistryReference reference
unfolding contains_byte
reference-IsRegistryReference = record {
  has_registry = λ h. cc h;
  registry = refl;
  org = refl;
  repo = refl;
  name = refl;
  version = refl;
  untagged_name = refl;
  untagged_version = refl;
}

parse_plugin_reference-show_reference_example :
    parse_plugin_reference (show_reference reference) ≡ inr reference
parse_plugin_reference-show_reference_example =
    parse_plugin_reference-show_reference reference reference-IsRegistryReference

untagged : parse_plugin_reference (codes "a/b/c/d") ≡ inl missing_version
unfolding parse_plugin_reference contains_byte split last_or
untagged = refl
