-- ===== src/Plugin/Service/Loading.antt =====
-- What LoadPlugin requires of a plugin, over any repository.
use reglet_hostlib.Base.{
  ◌≡◌, refl, ◌≢◌, ap, sym, ◌∙◌, ◌↔◌, ◌⊎◌, inl, inr, Bool, true, ◌||◌, Option, some, none, [], arith,
  Bool-cases,
}
use reglet_hostlib.Base.Text.{Str, text_eq, text_eq_iff}
use reglet_hostlib.Plugin.Values.{
  Digest, DigestError, digest_equals, PluginReference, ReferenceError, parse_plugin_reference,
}
use reglet_hostlib.Plugin.Repository.{PluginEntity, Result, ok, err}
use reglet_hostlib.Plugin.Service.{
  PluginRepository, IntegrityVerifier, PluginService, PluginSpec, ResolveError, Outcome, returned,
  resolve, to_digest, verify_integrity, signed, verified, located, checked, load_resolved,
  load_parsed, load_plugin,
}

-- Where signatures are required, there is a verifier, and it accepts the reference.
abbrev pub IsSigned : PluginService → PluginReference → Type 0
IsSigned service ref =
    service.require_signing ≡ true
    → (verifier : IntegrityVerifier) × (service.integrity_verifier ≡ some verifier)
      × (verifier.verify_signature ref ≡ true)

abbrev pub IsPinned : Digest → PluginEntity → Type 0
IsPinned expected plugin = expected.value ≢ [] → plugin.digest ≡ expected

pub record IsLoaded {S : Type 0} (repository : PluginRepository S) (service : PluginService)
    (spec : PluginSpec) (s after : S) (path : Str) : Type 0 where
  pub reference : PluginReference
  pub expected : Digest
  pub plugin : PluginEntity
  pub parses : parse_plugin_reference spec.name ≡ inr reference
  pub digest : to_digest spec ≡ inr expected
  pub resolves : resolve repository service.registry service.chain reference s ≡ (after, inr plugin)
  pub pinned : IsPinned expected plugin
  pub signature : IsSigned service reference
  pub located_at : (kept : PluginEntity) × (repository.find after reference ≡ ok (kept, path))

verify_integrity_iff :
    (plugin : PluginEntity) (expected : Digest)
    → (verify_integrity plugin expected ≡ true) ↔ (plugin.digest ≡ expected)
unfolding verify_integrity digest_equals
verify_integrity_iff plugin expected = ground (
  arith,
  text_eq_iff plugin.digest.algorithm expected.algorithm,
  text_eq_iff plugin.digest.value expected.value,
)

module _ {A : Type 0} (service : PluginService) (ref : PluginReference) (next : Outcome A)
    (a : A) where
  abbrev Required : Bool → Option IntegrityVerifier → Type 0
  Required required verifier =
      required ≡ true
      → (v : IntegrityVerifier) × (verifier ≡ some v) × (v.verify_signature ref ≡ true)

  signed_sound :
      (verifier : Option IntegrityVerifier)
      → signed verifier ref next ≡ returned a
      → (next ≡ returned a) × Required true verifier
  signed_sound none h = absurd (cc h)
  signed_sound (some v) h = elim (Bool-cases (v.verify_signature ref)) [
    | inl e ↦ (ground (arith, h, e), λ t. (v, refl, e))
    | inr e ↦ absurd (ground (arith, h, e))
  ]

  verified_sound :
      verified service ref next ≡ returned a → (next ≡ returned a) × IsSigned service ref
  verified_sound h = elim (Bool-cases service.require_signing) [
    | inl e ↦
        let (n, r) = signed_sound service.integrity_verifier (ground (arith, h, e)) in
        (n, λ t. r refl)
    | inr e ↦ (ground (arith, h, e), λ t. absurd (cc (t, e)))
  ]

  verified_complete :
      next ≡ returned a → IsSigned service ref → verified service ref next ≡ returned a
  verified_complete n r = elim (Bool-cases service.require_signing) [
    | inl e ↦ let (v, is, accepts) = r e in rw (e, is, accepts) n
    | inr e ↦ rw e n
  ]

located_sound :
    (r : Result (PluginEntity × Str)) {path : Str}
    → located r ≡ returned path
    → (kept : PluginEntity) × (r ≡ ok (kept, path))
located_sound (ok (kept, file)) h = (kept, cc h)
located_sound (err e) h = absurd (cc h)

abbrev pub IsChecked :
    PluginService
    → PluginReference
    → Digest
    → Result (PluginEntity × Str)
    → ResolveError ⊎ PluginEntity
    → Str
    → Type 0
IsChecked service ref expected there resolved path =
    (plugin : PluginEntity) × (resolved ≡ inr plugin)
    × IsPinned expected plugin
    × IsSigned service ref
    × ((kept : PluginEntity) × (there ≡ ok (kept, path)))

checked_sound :
    (service : PluginService) (ref : PluginReference) (expected : Digest)
    (there : Result (PluginEntity × Str)) (resolved : ResolveError ⊎ PluginEntity) {path : Str}
    → checked service ref expected there resolved ≡ returned path
    → IsChecked service ref expected there resolved path
checked_sound service ref expected there (inl e) h = absurd (cc h)
checked_sound service ref expected there (inr plugin) {path} h =
    elim (Bool-cases (text_eq expected.value [] || verify_integrity plugin expected)) [
      | inl e ↦
          let (l, s) = verified_sound service ref (located there) path (ground (arith, h, e)) in
          (
            plugin,
            refl,
            (λ n.
                (verify_integrity_iff plugin expected).0
                  (ground (arith, e, text_eq_iff expected.value []))),
            s,
            located_sound there l,
          )
      | inr e ↦ absurd (ground (arith, h, e))
    ]

checked_complete :
    (service : PluginService) (ref : PluginReference) (expected : Digest)
    (there : Result (PluginEntity × Str)) (plugin kept : PluginEntity) (path : Str)
    → IsPinned expected plugin
    → IsSigned service ref
    → there ≡ ok (kept, path)
    → checked service ref expected there (inr plugin) ≡ returned path
checked_complete service ref expected there plugin kept path pinned signature at =
    let passes : (text_eq expected.value [] || verify_integrity plugin expected) ≡ true =
      elim (Bool-cases (text_eq expected.value [])) [
        | inl e ↦ rw e refl
        | inr e ↦
            let same = pinned (λ n. ground (arith, e, text_eq_iff expected.value [])) in
            rw (e, (verify_integrity_iff plugin expected).1 same) refl
      ] in
    rw passes (verified_complete service ref (located there) path (rw at refl) signature)

module _ {S : Type 0} (repository : PluginRepository S) (service : PluginService) where
  load_parsed_sound :
      (parsed : ReferenceError ⊎ PluginReference) (digest : DigestError ⊎ Digest) (s : S)
      {after : S} {path : Str}
      → load_parsed repository service parsed digest s ≡ (after, returned path)
      → (ref : PluginReference) × (expected : Digest) × (parsed ≡ inr ref)
        × (digest ≡ inr expected)
        × (load_resolved repository service ref expected s ≡ (after, returned path))
  load_parsed_sound (inl e) digest s h = absurd (cc h)
  load_parsed_sound (inr ref) (inl e) s h = absurd (cc h)
  load_parsed_sound (inr ref) (inr expected) s h = (ref, expected, refl, refl, h)

  load_plugin_sound :
      (spec : PluginSpec) (s after : S) (path : Str)
      → load_plugin repository service spec s ≡ (after, returned path)
      → IsLoaded repository service spec s after path
  unfolding load_plugin load_resolved
  load_plugin_sound spec s after path h =
      let (ref, expected, parses, digest, loads) = load_parsed_sound _ _ s h in
      let resolved = resolve repository service.registry service.chain ref s in
      let ends : resolved.0 ≡ after = ap (λ r. r.0) loads in
      let (plugin, resolves, pinned, signature, (kept, at)) =
        checked_sound service ref expected (repository.find resolved.0 ref) resolved.1
          (ap (λ r. r.1) loads) in
      record {
        reference = ref;
        expected = expected;
        plugin = plugin;
        parses = parses;
        digest = digest;
        resolves = cc (ends, resolves);
        pinned = pinned;
        signature = signature;
        located_at = (kept, ap (λ t. repository.find t ref) (sym ends) ∙ at);
      }

  load_plugin_complete :
      (spec : PluginSpec) (s after : S) (path : Str)
      → IsLoaded repository service spec s after path
      → load_plugin repository service spec s ≡ (after, returned path)
  unfolding load_plugin load_resolved
  load_plugin_complete spec s after path l =
      let (kept, at) = l.located_at in
      let passes =
        checked_complete service l.reference l.expected (repository.find after l.reference) l.plugin
          kept path l.pinned l.signature at in
      rw (l.parses, l.digest, load_resolved, l.resolves, passes) refl

-- Over any repository, `LoadPlugin` returns a path exactly if the specification names a reference
-- and a digest, the chain resolves the reference to a plugin, that plugin has the digest where the
-- value of the digest is not empty, there is a verifier that accepts the reference where signatures
-- are required, and afterwards the repository finds the reference at that path.
pub load_plugin_iff :
    {S : Type 0} (repository : PluginRepository S) (service : PluginService) (spec : PluginSpec)
    (s after : S) (path : Str)
    → (load_plugin repository service spec s ≡ (after, returned path))
      ↔ IsLoaded repository service spec s after path
load_plugin_iff repository service spec s after path = (
  load_plugin_sound repository service spec s after path,
  load_plugin_complete repository service spec s after path,
)
