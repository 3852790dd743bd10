-- ===== src/Gatekeeper/Levels.antt =====
-- What the strict and the permissive level make of `GrantCapabilities`.
use mathlib.Core.Path.{subst}
use reglet_hostlib.Base.{
  ◌≡◌, refl, ap, inl, inr, Bool, true, false, Option, none, some, if◌then◌else◌,
}
use reglet_hostlib.Base.Map.{Map}
use reglet_hostlib.Base.Text.{Str}
use reglet_hostlib.Grants.{GrantSet, empty_grants}
use reglet_hostlib.Gatekeeper.{
  SecurityLevel, strict, standard, permissive, CapabilityInfo, Failure, not_interactive, Result, ok,
  err, Abi, Session, Gatekeeper, Prompter,
}
use reglet_hostlib.Gatekeeper.Prompting.{get_plugin_name, prompt_for_capabilities}
use reglet_hostlib.Gatekeeper.Granting.{
  Outcome, unsaved, conclude, existing_of, start, grant_capabilities,
}
use reglet_hostlib.Gatekeeper.Items.{Item, item, items, Has, request}
use reglet_hostlib.Gatekeeper.Runs.{prompt_for_capabilities_iff}
use reglet_hostlib.Gatekeeper.Entries.{
  IsAbi, Approved, by_level, by_user, Run-permissive, permissive-Run,
}
use reglet_hostlib.Gatekeeper.Decisions.{Sound, grant_capabilities-Sound}

pub record Refused (o : Outcome) : Type 0 where
  pub failure : Failure
  pub same : o ≡ unsaved (err failure)

pub record Accepted (o : Outcome) : Type 0 where
  pub granted : GrantSet
  pub same : o ≡ unsaved (ok granted)

-- An error is never saved.
conclude-Refused :
    (r : Result Session) (f : Failure) → (conclude r).result ≡ err f → conclude r ≡ unsaved (err f)
conclude-Refused (err e) f h = cc
conclude-Refused (ok t) f h = cc

module _ (abi : Abi) (g : Gatekeeper) (info : Map CapabilityInfo) (required : GrantSet) where
  abbrev asked : Result Session
  asked =
      prompt_for_capabilities abi g.security_level g.prompter
        (abi.deduplicate (abi.difference required (existing_of g))) info (start abi g)

  abbrev answer : Bool → Bool → Bool → Bool → Outcome
  answer empty trust covered interactive =
      if empty
      then unsaved (ok empty_grants)
      else if trust
      then unsaved (ok (abi.clone required))
      else if covered
      then unsaved (ok (existing_of g))
      else if interactive
      then conclude asked
      else unsaved
          (err (not_interactive (abi.deduplicate (abi.difference required (existing_of g)))))

  answer-Refused :
      (empty trust covered interactive : Bool) (f : Failure)
      → (answer empty trust covered interactive).result ≡ err f
      → answer empty trust covered interactive ≡ unsaved (err f)
  answer-Refused true trust covered interactive f h = cc
  answer-Refused false true covered interactive f h = cc
  answer-Refused false false true interactive f h = cc
  answer-Refused false false false true f h = conclude-Refused asked f h
  answer-Refused false false false false f h = cc

  Refused-err :
      (trust : Bool) (f : Failure)
      → (grant_capabilities abi g (some required) info trust).result ≡ err f
      → grant_capabilities abi g (some required) info trust ≡ unsaved (err f)
  unfolding grant_capabilities
  Refused-err trust f h =
      answer-Refused (abi.is_empty required) trust
        (abi.is_empty (abi.difference required (existing_of g))) g.prompter.is_interactive f h

conclude-Accepted :
    (r : Result Session) (t : Session) → r ≡ ok t → t.should_save ≡ false → Accepted (conclude r)
conclude-Accepted (err e) t h s = cc
conclude-Accepted (ok u) t h s =
    let quiet : u.should_save ≡ false = cc in
    record {
      granted = u.grants;
      same =
          ap (λ b. record { result = ok u.grants; saved = if b then some u.grants else none })
            quiet;
    }

item_injective : {x y : Item} → item x ≡ item y → x ≡ y
item_injective h = cc

broad-unapproved :
    (g : Gatekeeper) (plugin : Str) (x : Item)
    → g.security_level ≡ strict
    → (request plugin x).is_broad ≡ true
    → ¬ Approved g.security_level g.prompter plugin x
broad-unapproved g plugin x s b (by_level p) = cc
broad-unapproved g plugin x s b (by_user asked always nb a) = cc (nb s)

module _ (abi : Abi) (laws : IsAbi abi) (g : Gatekeeper) (level : g.security_level ≡ strict)
    (info : Map CapabilityInfo) (required : GrantSet) (x : Item)
    (broad : (request (get_plugin_name info) x).is_broad ≡ true) (wanted : Has required (item x))
    (new : ¬ Has (existing_of g) (item x)) where
  unsound :
      (granted : GrantSet) (saved : Option GrantSet)
      → ¬ Sound g (get_plugin_name info) required granted saved
  unsound granted saved s = elim (s.only (item x) (s.whole x wanted)) [
    | inl old ↦ new old
    | inr why ↦ broad-unapproved g (get_plugin_name info) x level broad (
        subst (Approved g.security_level g.prompter (get_plugin_name info))
          (item_injective why.1.names) why.1.approved)
  ]

  strict_result :
      (r : Result GrantSet)
      → (grant_capabilities abi g (some required) info false).result ≡ r
      → Refused (grant_capabilities abi g (some required) info false)
  strict_result (ok granted) h =
      absurd (unsound granted _ (grant_capabilities-Sound abi laws g info required granted h))
  strict_result (err f) h = record { failure = f; same = Refused-err abi g info required false f h }

  -- On the strict level, where not all plugins are trusted and the methods of GrantSet are as
  -- `IsAbi` says, a required item that is broad and not among the existing grants makes
  -- `GrantCapabilities` fail, whatever the user would answer, and nothing is saved.
  pub strict_broad-Refused : Refused (grant_capabilities abi g (some required) info false)
  strict_broad-Refused = strict_result _ refl

module _ (abi : Abi) (p : Prompter) (missing : GrantSet) (info : Map CapabilityInfo) (s : Session)
    (quiet : s.should_save ≡ false) where
  permissive_prompts :
      (level : SecurityLevel)
      → level ≡ permissive
      → (t : Session) × (prompt_for_capabilities abi level p missing info s ≡ ok t)
        × (t.should_save ≡ false)
  permissive_prompts strict h = cc
  permissive_prompts standard h = cc
  permissive_prompts permissive h =
      let plugin = get_plugin_name info in
      let (t, run) = permissive-Run abi p plugin (items missing) s in
      (
        t,
        (prompt_for_capabilities_iff abi permissive p missing info s t).1 run,
        Run-permissive abi p plugin run quiet,
      )

module _ (abi : Abi) (g : Gatekeeper) (level : g.security_level ≡ permissive)
    (interactive : g.prompter.is_interactive ≡ true) (info : Map CapabilityInfo) where
  answer-Accepted :
      (required : GrantSet) (empty trust covered prompts : Bool)
      → prompts ≡ true
      → Accepted (answer abi g info required empty trust covered prompts)
  answer-Accepted required true trust covered prompts h = record { granted = _; same = refl }
  answer-Accepted required false true covered prompts h = record { granted = _; same = refl }
  answer-Accepted required false false true prompts h = record { granted = _; same = refl }
  answer-Accepted required false false false false h = cc
  answer-Accepted required false false false true h =
      let missing = abi.deduplicate (abi.difference required (existing_of g)) in
      let (t, done, quiet) =
        permissive_prompts abi g.prompter missing info (start abi g) refl g.security_level level in
      conclude-Accepted (asked abi g info required) t done quiet

  -- On the permissive level, with a prompter that is interactive, `GrantCapabilities` always
  -- succeeds and saves nothing.
  pub permissive-Accepted :
      (required : Option GrantSet) (trust_all : Bool)
      → Accepted (grant_capabilities abi g required info trust_all)
  unfolding grant_capabilities
  permissive-Accepted none trust_all = record { granted = _; same = refl }
  permissive-Accepted (some required) trust_all =
      answer-Accepted required (abi.is_empty required) trust_all
        (abi.is_empty (abi.difference required (existing_of g))) g.prompter.is_interactive
        interactive
