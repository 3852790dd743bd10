-- ===== src/Risk/Examples.antt =====
-- Tests of the risk analysis, and its theorems at concrete inputs.
use reglet_hostlib.Base.{◌≡◌, refl, some, [], ◌∷◌, any}
use reglet_hostlib.Base.Text.{codes, text_eq}
use reglet_hostlib.Grants.{GrantSet, empty_grants}
use reglet_hostlib.Risk.{
  analyze_risk, analyze_grants, risk_critical, is_wildcard_host, add_factor, add_network_rules,
  add_network_rule, add_fs_rules, add_fs_rule,
}
use reglet_hostlib.Risk.Levels.{weight, level-analyze_risk}

abbrev grants : GrantSet
grants = record empty_grants {
  network =
      some (record { hosts = codes "a.io" ∷ codes "0.0.0.0" ∷ []; ports = codes "80" ∷ [] } ∷ []);
  fs = some (record { read = codes "/x" ∷ []; write = [] } ∷ []);
}

critical : (analyze_risk (some grants)).level ≡ risk_critical
unfolding analyze_risk add_network_rules add_network_rule any is_wildcard_host text_eq add_factor
    add_fs_rules add_fs_rule analyze_grants
critical = refl

level-analyze_risk_example : (analyze_risk (some grants)).level ≡ weight grants
level-analyze_risk_example = level-analyze_risk grants
