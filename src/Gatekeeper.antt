-- ===== src/Gatekeeper.antt =====
-- capability/gatekeeper/gatekeeper.go and capability/ports.go: the decision on the grants that are
-- missing. The methods of hostfunc.GrantSet, the grant store and the prompter are parameters; the
-- prompter may answer by all that it was asked before. Log lines, and the risk factors that only
-- they show, are left out. A security level that is none of the three acts as the standard one.
pub mod Prompting
pub mod Granting
pub mod Items
pub mod Runs
pub mod Entries
pub mod Decisions
pub mod Levels
mod Entrywise
pub mod Examples
use reglet_hostlib.Base.{
  ◌≡◌, refl, Bool, true, false, ◌&&◌, ◌||◌, Option, none, some, List, [], ◌∷◌, ◌++◌, if◌then◌else◌,
}
use reglet_hostlib.Base.Text.{Str, codes, text_eq, or_else}
use reglet_hostlib.Base.Map.{Map}
use reglet_hostlib.Grants.{GrantSet, NetworkRule, FsRule, empty_grants}

pub data SecurityLevel : Type 0 where
  strict standard permissive : SecurityLevel

-- The rule of a request, an untyped value in Go.
pub data Rule : Type 0 where
  network_rule : NetworkRule → Rule
  fs_rule : FsRule → Rule
  text_rule : Str → Rule

pub record Request : Type 0 where
  pub plugin_name : Str
  pub rule : Rule
  pub kind : Str
  pub description : Str
  pub is_broad : Bool

pub record CapabilityInfo : Type 0 where
  pub plugin_name : Str
  pub is_profile_based : Bool
  pub is_broad : Bool

pub data Failure : Type 0 where
  prompt_failed : Str → Failure
  broad_denied : Str → Failure
  denied_by_user : Str → Failure
  not_interactive : GrantSet → Failure

-- The error of a Go function comes second, so a result is one or the other.
pub data Result (A : Type 0) : Type 0 where
  err : Failure → Result A
  ok : A → Result A

-- if err != nil { return err }
infixl 5 ◌>>=◌
abbrev pub ◌>>=◌ : {A B : Type 0} → Result A → (A → Result B) → Result B
err failure >>= after = err failure
ok value >>= after = after value

-- Where the whole succeeds, its first part has.
pub >>=_both :
    {S T : Type 0} (after : S → Result T) (first : Result S) {t : T}
    → (first >>= after) ≡ ok t
    → (s : S) × (first ≡ ok s) × (after s ≡ ok t)
>>=_both after (err failure) whole = cc
>>=_both after (ok s) whole = (s, refl, whole)

-- What PromptForCapability returns.
pub data Answer : Type 0 where
  answered : Bool → Bool → Answer
  failed : Str → Answer

-- `prompt` is given the requests that were prompted for before.
pub record Prompter : Type 0 where
  pub is_interactive : Bool
  pub prompt : List Request → Request → Answer

-- What Load gives, `none` for an error.
pub record Store : Type 0 where
  pub loaded : Option GrantSet

pub record Gatekeeper : Type 0 where
  pub store : Store
  pub prompter : Prompter
  pub security_level : SecurityLevel

pub data GatekeeperOption : Type 0 where
  with_store : Store → GatekeeperOption
  with_prompter : Prompter → GatekeeperOption
  with_security_level : SecurityLevel → GatekeeperOption

pub record Settings : Type 0 where
  pub chosen_store : Option Store
  pub chosen_prompter : Option Prompter
  pub level : SecurityLevel

unfoldable pub apply_option : GatekeeperOption → Settings → Settings
apply_option (with_store s) g = record g { chosen_store = some s }
apply_option (with_prompter p) g = record g { chosen_prompter = some p }
apply_option (with_security_level l) g = record g { level = l }

unfoldable pub apply_options : List GatekeeperOption → Settings → Settings
apply_options [] g = g
apply_options (o ∷ os) g = apply_options os (apply_option o g)

abbrev pub given {ℓ} : {A : Type ℓ} → A → Option A → A
given default none = default
given default (some a) = a

-- NewGatekeeper, with the file store and the terminal prompter that it falls back on.
unfoldable pub new_gatekeeper : Store → Prompter → List GatekeeperOption → Gatekeeper
unfolding apply_options
new_gatekeeper file_store terminal opts =
    let g =
      apply_options opts
        (record { chosen_store = none; chosen_prompter = none; level = standard }) in
    record {
      store = given file_store g.chosen_store;
      prompter = given terminal g.chosen_prompter;
      security_level = g.level;
    }

-- The methods of hostfunc.GrantSet that the gatekeeper calls; those that write return the set.
pub record Abi : Type 0 where
  pub is_empty : GrantSet → Bool
  pub clone : GrantSet → GrantSet
  pub difference : GrantSet → GrantSet → GrantSet
  pub deduplicate : GrantSet → GrantSet
  pub merge : GrantSet → GrantSet → GrantSet

-- `granted`, `always`, and what was prompted for up to now.
pub record Verdict : Type 0 where
  pub granted : Bool
  pub always : Bool
  pub asked : List Request

abbrev pub heard : List Request → Answer → Result Verdict
heard asked (answered granted always) =
    ok (record { granted = granted; always = always; asked = asked })
heard asked (failed message) = err (prompt_failed message)

abbrev pub automatic : List Request → Result Verdict
automatic asked = ok (record { granted = true; always = false; asked = asked })

unfoldable pub ask : Prompter → Request → List Request → Result Verdict
ask p req asked = heard (asked ++ req ∷ []) (p.prompt asked req)

-- The levels, for a broad request and for another.
abbrev pub evaluate_broad : SecurityLevel → Prompter → Request → List Request → Result Verdict
evaluate_broad strict p req asked = err (broad_denied req.description)
evaluate_broad permissive p req asked = automatic asked
evaluate_broad standard p req asked = ask p req asked

abbrev pub evaluate_plain : SecurityLevel → Prompter → Request → List Request → Result Verdict
evaluate_plain permissive p req asked = automatic asked
evaluate_plain strict p req asked = ask p req asked
evaluate_plain standard p req asked = ask p req asked

-- evaluateWithSecurityLevel
unfoldable pub evaluate_with_security_level :
    SecurityLevel → Prompter → Request → List Request → Result Verdict
evaluate_with_security_level level p req asked =
    if req.is_broad then evaluate_broad level p req asked else evaluate_plain level p req asked

-- What the loops change: newGrants, shouldSave, and the requests that were prompted for.
pub record Session : Type 0 where
  pub grants : GrantSet
  pub should_save : Bool
  pub prompted : List Request
