-- ===== src/Gatekeeper/Granting.antt =====
-- GrantCapabilities in capability/gatekeeper/gatekeeper.go.
use reglet_hostlib.Base.{Bool, false, Option, none, some, [], if◌then◌else◌}
use reglet_hostlib.Base.Map.{Map}
use reglet_hostlib.Grants.{GrantSet, empty_grants}
use reglet_hostlib.Gatekeeper.{
  CapabilityInfo, not_interactive, Result, ok, err, Gatekeeper, given, Abi, Session,
}
use reglet_hostlib.Gatekeeper.Prompting.{prompt_for_capabilities}

-- The result of GrantCapabilities, and the set that it hands to the store, if it does.
pub record Outcome : Type 0 where
  pub result : Result GrantSet
  pub saved : Option GrantSet

abbrev pub unsaved : Result GrantSet → Outcome
unsaved r = record { result = r; saved = none }

abbrev pub conclude : Result Session → Outcome
conclude (err e) = unsaved (err e)
conclude (ok s) = record {
  result = ok s.grants;
  saved = if s.should_save then some s.grants else none;
}

-- An existing grant set that cannot be loaded counts as empty.
abbrev pub existing_of : Gatekeeper → GrantSet
existing_of g = given empty_grants g.store.loaded

abbrev pub start : Abi → Gatekeeper → Session
start abi g = record { grants = abi.clone (existing_of g); should_save = false; prompted = [] }

-- What is left to decide once something is missing.
abbrev pub decide : Abi → Gatekeeper → Map CapabilityInfo → GrantSet → Outcome
decide abi g info missing =
    if g.prompter.is_interactive
    then conclude
        (prompt_for_capabilities abi g.security_level g.prompter missing info (start abi g))
    else unsaved (err (not_interactive missing))

abbrev pub grant_missing : Abi → Gatekeeper → Map CapabilityInfo → GrantSet → Outcome
grant_missing abi g info missing =
    if abi.is_empty missing
    then unsaved (ok (existing_of g))
    else decide abi g info (abi.deduplicate missing)

-- GrantCapabilities
unfoldable pub grant_capabilities :
    Abi → Gatekeeper → Option GrantSet → Map CapabilityInfo → Bool → Outcome
grant_capabilities abi g none info trust_all = unsaved (ok empty_grants)
grant_capabilities abi g (some required) info trust_all =
    if abi.is_empty required
    then unsaved (ok empty_grants)
    else if trust_all
    then unsaved (ok (abi.clone required))
    else grant_missing abi g info (abi.difference required (existing_of g))
