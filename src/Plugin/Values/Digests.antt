-- ===== src/Plugin/Values/Digests.antt =====
-- Digests: parsing undoes printing, and what a verification shows.
use mathlib.Core.Path.{subst}
use reglet_hostlib.Base.{
  or_iff, ◌||◌, ◌≡◌, refl, ap, sym, ◌∙◌, ◌↔◌, ◌⊎◌, inl, inr, true, none, ◌∷◌, ◌++◌, arith,
  Option-cases,
}
use reglet_hostlib.Base.Text.{
  Str, codes, text_eq, text_eq_iff, cut, cut_sound, cut-append, Lacks, contains_byte,
}
use reglet_hostlib.Plugin.Values.{
  Digest, new_digest, parse_digest, show_digest, digest_equals, Hashes, compute_hash, verify,
}

abbrev pub IsSupported : Str → Type 0
IsSupported algorithm = (algorithm ≡ codes "sha256") ⊎ (algorithm ≡ codes "sha512")

new_digest_sound :
    (algorithm hex_value : Str) (d : Digest)
    → new_digest algorithm hex_value ≡ inr d
    → IsSupported algorithm × (d.algorithm ≡ algorithm) × (d.value ≡ hex_value)
unfolding new_digest
new_digest_sound algorithm hex_value d h =
    ground (arith, text_eq_iff algorithm (codes "sha256"), text_eq_iff algorithm (codes "sha512"))

IsSupported-iff :
    (algorithm : Str)
    → ((text_eq algorithm (codes "sha256") || text_eq algorithm (codes "sha512")) ≡ true)
      ↔ IsSupported algorithm
IsSupported-iff algorithm =
    or_iff _ _ (text_eq_iff algorithm (codes "sha256")) (text_eq_iff algorithm (codes "sha512"))

new_digest_complete :
    (d : Digest) → IsSupported d.algorithm → new_digest d.algorithm d.value ≡ inr d
unfolding new_digest
new_digest_complete d h = let supported = (IsSupported-iff d.algorithm).1 h in rw supported refl

supported-Lacks : (algorithm : Str) → IsSupported algorithm → Lacks b':' algorithm
supported-Lacks algorithm (inl e) = rw e (unfold contains_byte in refl)
supported-Lacks algorithm (inr e) = rw e (unfold contains_byte in refl)

parse_digest_sound :
    (s : Str) (d : Digest) → parse_digest s ≡ inr d → (s ≡ show_digest d) × IsSupported d.algorithm
unfolding parse_digest show_digest
parse_digest_sound s d h = elim (Option-cases (cut b':' s)) [
  | inl e ↦ absurd (ground arith)
  | inr ((algorithm, value), e) ↦
      let (whole, lacks) = cut_sound b':' s algorithm value e in
      let made : new_digest algorithm value ≡ inr d = ground arith in
      let (supported, same, same_value) = new_digest_sound algorithm value d made in
      (
        whole
            ∙ ap (λ a. a ++ b':' ∷ value) (sym same)
            ∙ ap (λ v. d.algorithm ++ b':' ∷ v) (sym same_value),
        subst IsSupported (sym same) supported,
      )
]

-- A text parses to a digest exactly if it is the text of the digest, and the algorithm is one of
-- the two that are supported.
pub parse_digest_iff :
    (s : Str) (d : Digest)
    → (parse_digest s ≡ inr d) ↔ ((s ≡ show_digest d) × IsSupported d.algorithm)
unfolding parse_digest show_digest
parse_digest_iff s d = (
  parse_digest_sound s d,
  λ (whole, supported).
      rw
        (
          whole,
          parse_digest,
          cut-append b':' d.algorithm d.value (supported-Lacks d.algorithm supported),
        )
        (new_digest_complete d supported),
)

-- What the content hashes to under a supported algorithm.
abbrev pub HashesTo : Hashes → Str → Str → Str → Type 0
HashesTo hashes content algorithm value =
    ((algorithm ≡ codes "sha256") × (value ≡ hashes.sha256 content))
    ⊎ ((algorithm ≡ codes "sha512") × (value ≡ hashes.sha512 content))

-- A digest is verified exactly if its algorithm is supported, and its value is the hash of the
-- content by that algorithm.
pub verify_iff :
    (hashes : Hashes) (d : Digest) (content : Str)
    → (verify hashes d content ≡ none) ↔ HashesTo hashes content d.algorithm d.value
unfolding verify compute_hash digest_equals
verify_iff hashes d content = ground (
  arith,
  text_eq_iff d.algorithm (codes "sha256"),
  text_eq_iff d.algorithm (codes "sha512"),
  text_eq_iff d.value (hashes.sha256 content),
  text_eq_iff d.value (hashes.sha512 content),
)
