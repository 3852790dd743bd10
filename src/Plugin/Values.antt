-- ===== src/Plugin/Values.antt =====
-- plugin/values: digest.go, plugin_name.go and plugin_reference.go. A Go rune outside ASCII is no
-- character of a name, and neither is any of its bytes, so names are checked byte by byte.
pub mod Digests
pub mod Names
pub mod References
pub mod Examples
use reglet_hostlib.Base.{
  ℕ, Bool, true, false, ◌&&◌, ◌||◌, not, Option, none, some, ◌⊎◌, inl, inr, List, [], ◌∷◌, ◌++◌,
  length, ltb, leb, ◌==◌, any, if◌then◌else◌,
}
use reglet_hostlib.Base.Text.{
  Str, codes, text_eq, contains, contains_byte, cut, split, last_or, trim_space,
}

pub record Digest : Type 0 where
  pub algorithm : Str
  pub value : Str

pub data DigestError : Type 0 where
  unsupported : Str → DigestError
  bad_format : Str → DigestError
  mismatch : Digest → Digest → DigestError

-- NewDigest
unfoldable pub new_digest : Str → Str → DigestError ⊎ Digest
new_digest algorithm hex_value =
    if text_eq algorithm (codes "sha256") || text_eq algorithm (codes "sha512")
    then inr (record { algorithm = algorithm; value = hex_value })
    else inl (unsupported algorithm)

-- ParseDigest
unfoldable pub parse_digest : Str → DigestError ⊎ Digest
parse_digest s = elim (cut b':' s) [
  | none ↦ inl (bad_format s)
  | some (algorithm, hex_value) ↦ new_digest algorithm hex_value
]

unfoldable pub show_digest : Digest → Str
show_digest d = d.algorithm ++ b':' ∷ d.value

unfoldable pub digest_equals : Digest → Digest → Bool
digest_equals d e = text_eq d.algorithm e.algorithm && text_eq d.value e.value

-- The hash functions of package crypto, in hexadecimal digits.
pub record Hashes : Type 0 where
  pub sha256 : Str → Str
  pub sha512 : Str → Str

unfoldable pub compute_hash : Hashes → Digest → Str → DigestError ⊎ Digest
compute_hash hashes d data_ =
    if text_eq d.algorithm (codes "sha256")
    then inr (record { algorithm = codes "sha256"; value = hashes.sha256 data_ })
    else if text_eq d.algorithm (codes "sha512")
    then inr (record { algorithm = codes "sha512"; value = hashes.sha512 data_ })
    else inl (unsupported d.algorithm)

-- Verify; `none` is the nil error.
abbrev pub compared : Digest → DigestError ⊎ Digest → Option DigestError
compared d (inl e) = some e
compared d (inr computed) = if digest_equals d computed then none else some (mismatch d computed)

unfoldable pub verify : Hashes → Digest → Str → Option DigestError
verify hashes d content = compared d (compute_hash hashes d content)

pub data NameError : Type 0 where
  empty_name long_name has_separator has_parent bad_character : NameError

unfoldable pub is_valid_plugin_char : ℕ → Bool
is_valid_plugin_char c =
    leb b'a' c && leb c b'z'
    || (leb b'A' c && leb c b'Z' || (leb b'0' c && leb c b'9' || (c == b'_' || c == b'-')))

abbrev pub is_separator : ℕ → Bool
is_separator c = c == b'/' || c == 0x5c

-- The checks of NewPluginName, on the trimmed name.
unfoldable pub check_name : Str → Option NameError
check_name name =
    if text_eq name []
    then some empty_name
    else if ltb 64 (length name)
    then some long_name
    else if any is_separator name
    then some has_separator
    else if contains name (codes "..")
    then some has_parent
    else if any (λ c. not (is_valid_plugin_char c)) name
    then some bad_character
    else none

-- NewPluginName
unfoldable pub new_plugin_name : Str → NameError ⊎ Str
new_plugin_name name = elim (check_name (trim_space name)) [
  | none ↦ inr (trim_space name)
  | some e ↦ inl e
]

pub record PluginReference : Type 0 where
  pub registry : Str
  pub org : Str
  pub repo : Str
  pub name : Str
  pub version : Str

pub data ReferenceError : Type 0 where
  invalid_reference missing_version : ReferenceError

-- The name and the version, of the last part.
abbrev pub tagged : Str → Str → Str → List Str → ReferenceError ⊎ PluginReference
tagged registry org repo (name ∷ version ∷ []) =
    inr (record { registry = registry; org = org; repo = repo; name = name; version = version })
tagged registry org repo [] = inl missing_version
tagged registry org repo (a ∷ []) = inl missing_version
tagged registry org repo (a ∷ b ∷ c ∷ rest) = inl missing_version

-- At least four parts: the first three, and the last.
abbrev pub from_parts : List Str → ReferenceError ⊎ PluginReference
from_parts (registry ∷ org ∷ repo ∷ d ∷ rest) =
    tagged registry org repo (split b':' (last_or d rest))
from_parts [] = inl invalid_reference
from_parts (a ∷ []) = inl invalid_reference
from_parts (a ∷ b ∷ []) = inl invalid_reference
from_parts (a ∷ b ∷ c ∷ []) = inl invalid_reference

-- ParsePluginReference
unfoldable pub parse_plugin_reference : Str → ReferenceError ⊎ PluginReference
parse_plugin_reference ref =
    if not (contains_byte b'/' ref) && not (contains_byte b':' ref)
    then inr (record { registry = []; org = []; repo = []; name = ref; version = [] })
    else from_parts (split b'/' ref)

unfoldable pub is_embedded : PluginReference → Bool
is_embedded r = text_eq r.registry []

-- String()
unfoldable pub show_reference : PluginReference → Str
show_reference r =
    if is_embedded r
    then r.name
    else r.registry ++ b'/' ∷ (r.org ++ b'/' ∷ (r.repo ++ b'/' ∷ (r.name ++ b':' ∷ r.version)))
