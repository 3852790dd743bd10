-- ===== src/Gatekeeper/Examples.antt =====
-- Tests of the gatekeeper, and its theorems at concrete inputs.
use native.Mathlib.Decide.{ℕ_discrete}
use reglet_hostlib.Base.{
  ◌≡◌, refl, ap, ◌↔◌, inl, inr, true, false, some, List, [], ◌∷◌, if◌then◌else◌,
}
use reglet_hostlib.Base.Text.{Str, codes, text_eq}
use reglet_hostlib.Grants.{GrantSet, empty_grants}
use reglet_hostlib.Gatekeeper.{
  SecurityLevel, strict, standard, answered, Prompter, Gatekeeper, ok, Session, new_gatekeeper,
  apply_option, with_security_level, evaluate_with_security_level, ask,
}
use reglet_hostlib.Gatekeeper.Prompting.{
  env_request, round, prompt_for_network, prompt_for_fs, prompt_for_env, prompt_for_exec,
  prompt_for_capabilities, get_plugin_name,
}
use reglet_hostlib.Gatekeeper.Granting.{start, grant_capabilities}
use reglet_hostlib.Gatekeeper.Items.{item, env_item, items, Has}
use reglet_hostlib.Gatekeeper.Runs.{Run, prompt_for_capabilities_iff}
use reglet_hostlib.Gatekeeper.Decisions.{Sound, grant_capabilities-Sound}
use reglet_hostlib.Gatekeeper.Levels.{Refused, strict_broad-Refused}
use reglet_hostlib.Gatekeeper.Entrywise.{entrywise, entrywise-IsAbi, Any-decided, Entry-discrete}

abbrev variables : List Str → GrantSet
variables vs = record empty_grants { env = some vs }

-- Grants all but one variable, and all for good but another.
abbrev user : Prompter
user = record {
  is_interactive = true;
  prompt = λ asked req.
      if text_eq req.description (codes "env SECRET")
      then answered false false
      else if text_eq req.description (codes "env HOME")
      then answered true false
      else answered true true;
}

abbrev keeper : SecurityLevel → Gatekeeper
keeper level = record {
  store = record { loaded = some (variables (codes "LANG" ∷ [])) };
  prompter = user;
  security_level = level;
}

made : new_gatekeeper (keeper standard).store user (with_security_level strict ∷ []) ≡ keeper strict
unfolding new_gatekeeper apply_option
made = refl

abbrev both : GrantSet
both = variables (codes "HOME" ∷ codes "PATH" ∷ [])

abbrev all_three : GrantSet
all_three = variables (codes "PATH" ∷ codes "HOME" ∷ codes "LANG" ∷ [])

-- What was granted for once is saved with what was granted for good.
once_saved :
    grant_capabilities entrywise (keeper standard) (some both) [] false
    ≡ record { result = ok all_three; saved = some all_three }
unfolding grant_capabilities prompt_for_capabilities prompt_for_network prompt_for_fs prompt_for_env
    prompt_for_exec round ask Any-decided Entry-discrete evaluate_with_security_level
    get_plugin_name text_eq ℕ_discrete
once_saved = refl

abbrev reached : Session
reached = record {
  grants = all_three;
  should_save = true;
  prompted = env_request [] (codes "HOME") ∷ env_request [] (codes "PATH") ∷ [];
}

prompt_for_capabilities_iff_example :
    (prompt_for_capabilities entrywise standard user both [] (start entrywise (keeper standard))
      ≡ ok (reached))
    ↔ Run entrywise standard user
        (get_plugin_name [])
        (reached)
        (items both)
        (start entrywise (keeper standard))
prompt_for_capabilities_iff_example =
    prompt_for_capabilities_iff entrywise standard user both [] (start entrywise (keeper standard))
      (reached)

granted_both :
    (grant_capabilities entrywise (keeper standard) (some both) [] false).result ≡ ok all_three
granted_both = ap (λ o. o.result) once_saved

grant_capabilities-Sound_example :
    Sound
      (keeper standard)
      (get_plugin_name [])
      both
      all_three
      (grant_capabilities entrywise (keeper standard) (some both) [] false).saved
grant_capabilities-Sound_example =
    grant_capabilities-Sound entrywise entrywise-IsAbi (keeper standard) [] both all_three
      granted_both

-- Every variable at once.
abbrev every : GrantSet
every = variables (codes "*" ∷ [])

star_broad : text_eq (codes "*") (codes "*") ≡ true
unfolding text_eq
star_broad = refl

star_new : ¬ Has (variables (codes "LANG" ∷ [])) (item (env_item (codes "*")))
star_new = elim [ inl same ↦ cc | inr n ↦ n ]

strict_broad-Refused_example :
    Refused (grant_capabilities entrywise (keeper strict) (some every) [] false)
strict_broad-Refused_example =
    strict_broad-Refused entrywise entrywise-IsAbi (keeper strict) refl [] every
      (env_item (codes "*")) star_broad (inl refl) star_new
