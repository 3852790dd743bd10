-- ===== src/Plugin/Service.antt =====
-- plugin/service.go, plugin/resolvers, plugin/services and plugin/dto: how a plugin is resolved,
-- checked and located. The repository is an interface over a state; the registry and the verifier
-- of signatures, which reach the network, are parameters.
-- A service has a chain of resolvers; one without would panic.
pub mod Loading
pub mod Cache
pub mod Tampered
pub mod Examples
use reglet_hostlib.Base.{
  Bool, true, false, not, ◌||◌, ◌&&◌, Option, none, some, ◌⊎◌, inl, inr, List, [], ◌∷◌,
  if◌then◌else◌,
}
use reglet_hostlib.Base.Text.{Str, text_eq}
use reglet_hostlib.Plugin.Values.{
  Digest, DigestError, parse_digest, digest_equals, PluginReference, ReferenceError,
  parse_plugin_reference,
}
use reglet_hostlib.Plugin.Repository.{PluginEntity, RepositoryError, Result, ok, err}

-- ports.PluginRepository, as far as the service and the resolvers use it
pub record PluginRepository (S : Type 0) : Type 0 where
  pub find : S → PluginReference → Result (PluginEntity × Str)
  pub store : S → PluginEntity → Str → S × Result Str

-- dto.PluginArtifactDTO; the text is what its reader gives.
pub record PluginArtifact : Type 0 where
  pub plugin : PluginEntity
  pub wasm : Str

-- Pull and Push of ports.PluginRegistry; `none` and `false` are their errors.
pub record PluginRegistry : Type 0 where
  pub pull : PluginReference → Option PluginArtifact
  pub push : PluginArtifact → Bool

-- VerifySignature and Sign of ports.IntegrityVerifier; `false` is an error.
pub record IntegrityVerifier : Type 0 where
  pub verify_signature : PluginReference → Bool
  pub sign : PluginReference → Bool

pub data ResolveError : Type 0 where
  not_found : PluginReference → ResolveError
  pull_failed : ResolveError
  cache_failed : RepositoryError → ResolveError

-- The resolvers of a chain: CachedPluginResolver and RegistryPluginResolver.
pub data Resolver : Type 0 where
  cached from_registry : Resolver

abbrev pub caught : PluginEntity → Result Str → ResolveError ⊎ PluginEntity
caught plugin (ok path) = inr plugin
caught plugin (err e) = inl (cache_failed e)

-- Resolve of RegistryPluginResolver, which never goes on to the next resolver.
abbrev pub pulled :
    {S : Type 0}
    → PluginRepository S
    → Option PluginArtifact
    → S
    → S × (ResolveError ⊎ PluginEntity)
pulled repository none s = (s, inl pull_failed)
pulled repository (some artifact) s =
    let kept = repository.store s artifact.plugin artifact.wasm in
    (kept.0, caught artifact.plugin kept.1)

-- Resolve of CachedPluginResolver, with what the next resolver gives.
abbrev pub cached_or :
    {S : Type 0}
    → Result (PluginEntity × Str)
    → S
    → S × (ResolveError ⊎ PluginEntity)
    → S × (ResolveError ⊎ PluginEntity)
cached_or (ok (plugin, path)) s next = (s, inr plugin)
cached_or (err e) s next = next

-- Resolve, along the chain; at its end ResolveNext finds no next resolver.
unfoldable pub resolve :
    {S : Type 0}
    → PluginRepository S
    → PluginRegistry
    → List Resolver
    → PluginReference
    → S
    → S × (ResolveError ⊎ PluginEntity)
resolve repository registry [] ref s = (s, inl (not_found ref))
resolve repository registry (cached ∷ chain) ref s =
    cached_or (repository.find s ref) s (resolve repository registry chain ref s)
resolve repository registry (from_registry ∷ chain) ref s = pulled repository (registry.pull ref) s

pub record PluginSpec : Type 0 where
  pub name : Str
  pub digest : Str

-- ToDigest; no text gives the zero digest.
unfoldable pub to_digest : PluginSpec → DigestError ⊎ Digest
to_digest spec =
    if text_eq spec.digest []
    then inr (record { algorithm = []; value = [] })
    else parse_digest spec.digest

-- VerifyIntegrity, and VerifyDigest of IntegrityService
unfoldable pub verify_integrity : PluginEntity → Digest → Bool
verify_integrity plugin expected = digest_equals plugin.digest expected

pub data ServiceError : Type 0 where
  invalid_reference : ReferenceError → ServiceError
  invalid_digest : DigestError → ServiceError
  resolution_failed : ResolveError → ServiceError
  integrity_failed signature_failed push_failed signing_failed : ServiceError
  not_located : RepositoryError → ServiceError

-- What an operation of the service comes to; it panics where it calls a verifier that is nil.
pub data Outcome (A : Type 0) : Type 0 where
  returned : A → Outcome A
  failed : ServiceError → Outcome A
  panicked : Outcome A

pub record PluginService : Type 0 where
  pub chain : List Resolver
  pub registry : PluginRegistry
  pub integrity_verifier : Option IntegrityVerifier
  pub require_signing : Bool

abbrev pub signed :
    {A : Type 0} → Option IntegrityVerifier → PluginReference → Outcome A → Outcome A
signed none ref next = panicked
signed (some verifier) ref next =
    if verifier.verify_signature ref then next else failed signature_failed

-- ShouldVerifySignature and the check that follows it
abbrev pub verified : {A : Type 0} → PluginService → PluginReference → Outcome A → Outcome A
verified service ref next =
    if service.require_signing then signed service.integrity_verifier ref next else next

abbrev pub located : Result (PluginEntity × Str) → Outcome Str
located (ok (plugin, path)) = returned path
located (err e) = failed (not_located e)

-- What LoadPlugin does with the plugin that was resolved.
abbrev pub checked :
    PluginService
    → PluginReference
    → Digest
    → Result (PluginEntity × Str)
    → ResolveError ⊎ PluginEntity
    → Outcome Str
checked service ref expected there (inl e) = failed (resolution_failed e)
checked service ref expected there (inr plugin) =
    if text_eq expected.value [] || verify_integrity plugin expected
    then verified service ref (located there)
    else failed integrity_failed

unfoldable pub load_resolved :
    {S : Type 0}
    → PluginRepository S
    → PluginService
    → PluginReference
    → Digest
    → S
    → S × Outcome Str
unfolding resolve verify_integrity
load_resolved repository service ref expected s =
    let resolved = resolve repository service.registry service.chain ref s in
    (resolved.0, checked service ref expected (repository.find resolved.0 ref) resolved.1)

abbrev pub load_parsed :
    {S : Type 0}
    → PluginRepository S
    → PluginService
    → ReferenceError ⊎ PluginReference
    → DigestError ⊎ Digest
    → S
    → S × Outcome Str
load_parsed repository service (inl e) digest s = (s, failed (invalid_reference e))
load_parsed repository service (inr ref) (inl e) s = (s, failed (invalid_digest e))
load_parsed repository service (inr ref) (inr expected) s =
    load_resolved repository service ref expected s

-- LoadPlugin
unfoldable pub load_plugin :
    {S : Type 0} → PluginRepository S → PluginService → PluginSpec → S → S × Outcome Str
load_plugin repository service spec s =
    load_parsed repository service (parse_plugin_reference spec.name) (to_digest spec) s

abbrev pub pulled_plugin :
    PluginService → PluginReference → ResolveError ⊎ PluginEntity → Outcome PluginEntity
pulled_plugin service ref (inl e) = failed (resolution_failed e)
pulled_plugin service ref (inr plugin) = verified service ref (returned plugin)

-- Pull
unfoldable pub pull_plugin :
    {S : Type 0}
    → PluginRepository S
    → PluginService
    → PluginReference
    → S
    → S × Outcome PluginEntity
pull_plugin repository service ref s =
    let resolved = resolve repository service.registry service.chain ref s in
    (resolved.0, pulled_plugin service ref resolved.1)

abbrev pub signs : Option IntegrityVerifier → PluginReference → Outcome Unit
signs none ref = panicked
signs (some verifier) ref = if verifier.sign ref then returned tt else failed signing_failed

-- PublishPlugin
unfoldable pub publish_plugin : PluginService → PluginArtifact → Bool → Outcome Unit
publish_plugin service artifact should_sign =
    if not (service.registry.push artifact)
    then failed push_failed
    else if should_sign
    then signs service.integrity_verifier artifact.plugin.reference
    else returned tt
