-- ===== src/Risk.antt =====
-- capability/risk.go: how dangerous a grant set is. The text of a rule is kept as what it is made
-- from.
pub mod Levels
pub mod Examples
use reglet_hostlib.Base.{
  ℕ, Bool, true, false, ◌||◌, Option, none, some, List, [], ◌∷◌, ◌++◌, ltb, any, if◌then◌else◌,
}
use reglet_hostlib.Base.Text.{Str, codes, text_eq}
use reglet_hostlib.Grants.{GrantSet, NetworkRule, FsRule}

-- RiskNone, RiskLow, RiskMedium, RiskHigh and RiskCritical, in the order of iota.
abbrev pub RiskLevel : Type 0
RiskLevel = ℕ

abbrev pub risk_none : RiskLevel
risk_none = 0

abbrev pub risk_low : RiskLevel
risk_low = 1

abbrev pub risk_medium : RiskLevel
risk_medium = 2

abbrev pub risk_high : RiskLevel
risk_high = 3

abbrev pub risk_critical : RiskLevel
risk_critical = 4

pub data RiskRule : Type 0 where
  network_rule : List Str → List Str → RiskRule
  write_rule : List Str → RiskRule
  read_rule : List Str → RiskRule
  exec_rule : List Str → RiskRule
  env_rule : List Str → RiskRule

pub record RiskFactor : Type 0 where
  pub description : Str
  pub rule : RiskRule
  pub level : RiskLevel

pub record RiskReport : Type 0 where
  pub factors : List RiskFactor
  pub level : RiskLevel

-- addFactor
unfoldable pub add_factor : RiskLevel → Str → RiskRule → RiskReport → RiskReport
add_factor level description rule report =
    if ltb risk_none level
    then record {
      factors =
          report.factors ++ record { description = description; rule = rule; level = level } ∷ [];
      level = if ltb report.level level then level else report.level;
    }
    else report

unfoldable pub is_wildcard_host : Str → Bool
is_wildcard_host h = text_eq h (codes "*") || text_eq h (codes "0.0.0.0")

unfoldable pub add_network_rule : NetworkRule → RiskReport → RiskReport
unfolding any
add_network_rule rule report =
    if any is_wildcard_host rule.hosts
    then add_factor risk_critical (codes "Unrestricted network access")
        (network_rule rule.hosts rule.ports) report
    else add_factor risk_medium (codes "Outbound network access")
        (network_rule rule.hosts rule.ports) report

unfoldable pub add_network_rules : List NetworkRule → RiskReport → RiskReport
add_network_rules [] report = report
add_network_rules (rule ∷ rules) report = add_network_rules rules (add_network_rule rule report)

-- A factor of a list of grants, if the list is not empty.
abbrev pub add_list : RiskLevel → Str → (List Str → RiskRule) → List Str → RiskReport → RiskReport
add_list level description rule [] report = report
add_list level description rule (x ∷ xs) report =
    add_factor level description (rule (x ∷ xs)) report

unfoldable pub add_fs_rule : FsRule → RiskReport → RiskReport
add_fs_rule rule report =
    add_list risk_medium (codes "Filesystem read access") read_rule rule.read
      (add_list risk_high (codes "Filesystem write access") write_rule rule.write report)

unfoldable pub add_fs_rules : List FsRule → RiskReport → RiskReport
add_fs_rules [] report = report
add_fs_rules (rule ∷ rules) report = add_fs_rules rules (add_fs_rule rule report)

abbrev pub or_empty : {A : Type 0} → Option (List A) → List A
or_empty none = []
or_empty (some xs) = xs

abbrev pub empty_report : RiskReport
empty_report = record { factors = []; level = risk_none }

unfoldable pub analyze_grants : GrantSet → RiskReport
analyze_grants g =
    add_list risk_low (codes "Environment variable access") env_rule (or_empty g.env) (
      add_list risk_critical (codes "Arbitrary command execution") exec_rule (or_empty g.exec)
        (add_fs_rules (or_empty g.fs) (add_network_rules (or_empty g.network) empty_report)))

-- AnalyzeRisk; `none` is the nil grant set.
unfoldable pub analyze_risk : Option GrantSet → RiskReport
analyze_risk none = empty_report
analyze_risk (some g) = analyze_grants g
