-- ===== src/Gatekeeper/Decisions.antt =====
-- What `GrantCapabilities` grants, refuses and saves.
use mathlib.Core.Path.{subst}
use reglet_hostlib.Base.{
  ◌≡◌, refl, sym, ◌∙◌, ◌↔◌, ◌⊎◌, inl, inr, Bool, true, false, Option, none, some, [], All, List,
  ◌∷◌, Bool-cases, if◌then◌else◌,
}
use reglet_hostlib.Base.Map.{Map}
use reglet_hostlib.Base.Text.{Str}
use reglet_hostlib.Grants.{GrantSet, empty_grants}
use reglet_hostlib.Gatekeeper.{
  CapabilityInfo, not_interactive, Result, ok, err, Abi, Session, Gatekeeper,
}
use reglet_hostlib.Gatekeeper.Prompting.{get_plugin_name, prompt_for_capabilities}
use reglet_hostlib.Gatekeeper.Granting.{
  Outcome, unsaved, conclude, existing_of, start, grant_capabilities,
}
use reglet_hostlib.Gatekeeper.Items.{Item, Entry, item, items, Has}
use reglet_hostlib.Gatekeeper.Runs.{Run, prompt_for_capabilities_iff}
use reglet_hostlib.Gatekeeper.Entries.{
  IsAbi, Among, Among-Has, Has-Among, Approved, Run-Approved, Run-Has,
}

-- An entry whose item was approved.
pub record IsApproved (g : Gatekeeper) (plugin : Str) (e : Entry) : Type 0 where
  pub x : Item
  pub names : item x ≡ e
  pub approved : Approved g.security_level g.prompter plugin x

-- What a granted set has, and what is saved of it.
pub record Sound (g : Gatekeeper) (plugin : Str) (required granted : GrantSet)
    (saved : Option GrantSet) : Type 0 where
  pub only :
      (e : Entry) → Has granted e → Has (existing_of g) e ⊎ (Has required e × IsApproved g plugin e)
  pub whole : (x : Item) → Has required (item x) → Has granted (item x)
  pub stored : (saved ≡ none) ⊎ (saved ≡ some granted)

All-at :
    (P : Item → Type 0) (xs : List Item) (e : Entry)
    → All P xs
    → Among e xs
    → (x : Item) × (item x ≡ e) × P x
All-at P [] e h a = absurd a
All-at P (x ∷ xs) e h (inl same) = (x, same, h.0)
All-at P (x ∷ xs) e h (inr a) = All-at P xs e h.1 a

ok_injective : {a b : GrantSet} → ok a ≡ ok b → a ≡ b
ok_injective h = cc

module _ (abi : Abi) (laws : IsAbi abi) (g : Gatekeeper) (info : Map CapabilityInfo) where
  conclude-ok :
      (r : Result Session) (granted : GrantSet)
      → (conclude r).result ≡ ok granted
      → (t : Session) × (r ≡ ok t) × (t.grants ≡ granted)
  conclude-ok (err e) granted h = cc
  conclude-ok (ok t) granted h = (t, refl, cc)

  conclude-stored :
      (r : Result Session) (granted : GrantSet)
      → (conclude r).result ≡ ok granted
      → ((conclude r).saved ≡ none) ⊎ ((conclude r).saved ≡ some granted)
  conclude-stored (err e) granted h = cc
  conclude-stored (ok t) granted h = elim (Bool-cases t.should_save) [
    | inl s ↦ inr (rw s (cc))
    | inr s ↦ inl (rw s)
  ]

  module _ (required : GrantSet) where
    abbrev missing : GrantSet
    missing = abi.deduplicate (abi.difference required (existing_of g))

    missing-Has : (e : Entry) → Has required e → Has (existing_of g) e ⊎ Has missing e
    missing-Has e h = elim (laws.differs required (existing_of g) e h) [
      | inl a ↦ inl a
      | inr b ↦ inr ((laws.keeps (abi.difference required (existing_of g)) e).1 b)
    ]

    start-Has : (e : Entry) → Has (start abi g).grants e ↔ Has (existing_of g) e
    start-Has e = rw (laws.clones (existing_of g)) (λ h. h, λ h. h)

    missing-required : (e : Entry) → Among e (items missing) → Has required e
    missing-required e a =
        laws.requires required (existing_of g) e
          ((laws.keeps (abi.difference required (existing_of g)) e).0 (Among-Has missing e a))

    Run-Sound :
        (t : Session)
        → Run abi g.security_level g.prompter (get_plugin_name info) t (items missing) (start abi g)
        → (saved : Option GrantSet) → (saved ≡ none) ⊎ (saved ≡ some t.grants)
        → Sound g (get_plugin_name info) required t.grants saved
    Run-Sound t r saved stored =
        let plugin = get_plugin_name info in
        let has = λ (e : Entry). Run-Has abi g.security_level g.prompter plugin laws e r in
        let each = Run-Approved abi g.security_level g.prompter plugin r in
        record {
          only = λ e h. elim ((has e).0 h) [
            | inl old ↦ inl ((start-Has e).0 old)
            | inr new ↦
                let (x, same, why) =
                  All-at (Approved g.security_level g.prompter plugin) (items missing) e each new in
                inr (missing-required e new, record { x = x; names = same; approved = why })
          ];
          whole = λ x h. elim (missing-Has (item x) h) [
            | inl old ↦ (has (item x)).1 (inl ((start-Has (item x)).1 old))
            | inr new ↦ (has (item x)).1 (inr (Has-Among missing x new))
          ];
          stored = stored;
        }

    concluded-Sound :
        (r : Result Session) (granted : GrantSet)
        → prompt_for_capabilities abi g.security_level g.prompter missing info (start abi g) ≡ r
        → (conclude r).result ≡ ok granted
        → Sound g (get_plugin_name info) required granted (conclude r).saved
    concluded-Sound r granted e h =
        let (t, done, same) = conclude-ok r granted h in
        let run =
          (prompt_for_capabilities_iff abi g.security_level g.prompter missing info (start abi g)
              t).0
            (e ∙ done) in
        subst (λ k. Sound g (get_plugin_name info) required k (conclude r).saved) same
          (Run-Sound t run (conclude r).saved (
            subst (λ k. ((conclude r).saved ≡ none) ⊎ ((conclude r).saved ≡ some k)) (sym same)
              (conclude-stored r granted h)))

    abbrev asked : Result Session
    asked = prompt_for_capabilities abi g.security_level g.prompter missing info (start abi g)

    abbrev decided : Bool → Outcome
    decided b = if b then conclude asked else unsaved (err (not_interactive missing))

    decided-Sound :
        (b : Bool) (granted : GrantSet)
        → (decided b).result ≡ ok granted
        → Sound g (get_plugin_name info) required granted (decided b).saved
    decided-Sound true granted h = concluded-Sound asked granted refl h
    decided-Sound false granted h = cc

    existing-Sound :
        abi.is_empty (abi.difference required (existing_of g)) ≡ true
        → Sound g (get_plugin_name info) required (existing_of g) none
    existing-Sound empty = record {
      only = λ e h. inl h;
      whole = λ x h. elim (laws.differs required (existing_of g) (item x) h) [
        | inl old ↦ old
        | inr new ↦ absurd (laws.empties _ (item x) empty new)
      ];
      stored = inl refl;
    }

    abbrev remaining : Bool → Outcome
    remaining b = if b then unsaved (ok (existing_of g)) else decided g.prompter.is_interactive

    remaining-Sound :
        (b : Bool) (granted : GrantSet)
        → abi.is_empty (abi.difference required (existing_of g)) ≡ b
        → (remaining b).result ≡ ok granted
        → Sound g (get_plugin_name info) required granted (remaining b).saved
    remaining-Sound true granted e h =
        subst (λ k. Sound g (get_plugin_name info) required k none) (ok_injective h)
          (existing-Sound e)
    remaining-Sound false granted e h = decided-Sound g.prompter.is_interactive granted h

    abbrev answer : Bool → Outcome
    answer b =
        if b
        then unsaved (ok empty_grants)
        else remaining (abi.is_empty (abi.difference required (existing_of g)))

    answer-Sound :
        (b : Bool) (granted : GrantSet)
        → abi.is_empty required ≡ b
        → (answer b).result ≡ ok granted
        → Sound g (get_plugin_name info) required granted (answer b).saved
    answer-Sound true granted e h = record {
      only = λ y a. absurd (subst (λ k. Has k y) (sym (ok_injective h)) a);
      whole = λ x a. absurd (laws.empties required (item x) e a);
      stored = inl refl;
    }
    answer-Sound false granted e h =
        remaining-Sound (abi.is_empty (abi.difference required (existing_of g))) granted refl h

    -- Where not all plugins are trusted, and the methods of GrantSet are as `IsAbi` says, a grant
    -- set that `GrantCapabilities` returns has no entry but those of the existing grants and
    -- required ones that the permissive level grants or the user granted, whom the strict level
    -- does not ask for a broad one; it has everything required but key-value rules; and what is
    -- saved, if anything, is that whole set.
    pub grant_capabilities-Sound :
        (granted : GrantSet)
        → (grant_capabilities abi g (some required) info false).result ≡ ok granted
        → Sound g
            (get_plugin_name info)
            required
            granted
            (grant_capabilities abi g (some required) info false).saved
    unfolding grant_capabilities
    grant_capabilities-Sound granted h = answer-Sound (abi.is_empty required) granted refl h
