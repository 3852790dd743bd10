-- ===== src/Risk/Levels.antt =====
-- The level of a risk report.
use reglet_hostlib.Base.{
  ℕ, ◌≤◌, ◌≡◌, refl, ◌∙◌, ap, ◌≢◌, ◌↔◌, ◌⊎◌, inl, inr, true, some, List, [], ◌∷◌, arith, ltb, any,
  Any, any_iff, or_iff, Bool-cases, if◌then◌else◌,
}
use reglet_hostlib.Base.Text.{Str, codes, text_eq_iff}
use reglet_hostlib.Grants.{GrantSet, NetworkRule, FsRule}
use reglet_hostlib.Risk.{
  RiskLevel, RiskRule, RiskReport, risk_critical, add_factor, is_wildcard_host, add_network_rule,
  add_network_rules, add_list, add_fs_rule, add_fs_rules, or_empty, empty_report, analyze_grants,
  analyze_risk, env_rule, exec_rule, read_rule, write_rule,
}

-- The larger of two levels.
abbrev pub larger : RiskLevel → RiskLevel → RiskLevel
larger a b = if ltb a b then b else a

-- What a grant set weighs, by what it grants.
abbrev rule_weight : NetworkRule → RiskLevel
rule_weight rule = if any is_wildcard_host rule.hosts then 4 else 2

abbrev network_weight : List NetworkRule → RiskLevel
network_weight [] = 0
network_weight (rule ∷ rules) = larger (rule_weight rule) (network_weight rules)

abbrev list_weight : RiskLevel → List Str → RiskLevel
list_weight level [] = 0
list_weight level (x ∷ xs) = level

abbrev fs_weight : List FsRule → RiskLevel
fs_weight [] = 0
fs_weight (rule ∷ rules) =
    larger (larger (list_weight 3 rule.write) (list_weight 2 rule.read)) (fs_weight rules)

abbrev pub weight : GrantSet → RiskLevel
weight g = larger (network_weight (or_empty g.network)) (
    larger (fs_weight (or_empty g.fs))
      (larger (list_weight 4 (or_empty g.exec)) (list_weight 1 (or_empty g.env))))

-- A host that stands for every host.
abbrev pub IsWildcard : NetworkRule → Type 0
IsWildcard rule = Any (λ h. (h ≡ codes "*") ⊎ (h ≡ codes "0.0.0.0")) rule.hosts

add_factor-level :
    (level : RiskLevel) (description : Str) (rule : RiskRule) (report : RiskReport)
    → (add_factor level description rule report).level ≡ larger report.level level
unfolding add_factor
add_factor-level level description rule report = ground arith

add_list-level :
    (level : RiskLevel) (description : Str) (rule : List Str → RiskRule) (xs : List Str)
    (report : RiskReport)
    → (add_list level description rule xs report).level ≡ larger report.level (list_weight level xs)
add_list-level level description rule [] report = ground arith
add_list-level level description rule (x ∷ xs) report =
    add_factor-level level description (rule (x ∷ xs)) report

add_network_rule-level :
    (rule : NetworkRule) (report : RiskReport)
    → (add_network_rule rule report).level ≡ larger report.level (rule_weight rule)
unfolding add_network_rule
add_network_rule-level rule report = elim (Bool-cases (any is_wildcard_host rule.hosts)) [
  | inl e ↦ simp e (add_factor-level _ _ _ report)
  | inr e ↦ simp e (add_factor-level _ _ _ report)
]

larger_assoc : (a b c : ℕ) → larger (larger a b) c ≡ larger a (larger b c)
larger_assoc a b c = ground arith

add_network_rules-level :
    (rules : List NetworkRule) (report : RiskReport)
    → (add_network_rules rules report).level ≡ larger report.level (network_weight rules)
unfolding add_network_rules
add_network_rules-level [] report = ground arith
add_network_rules-level (rule ∷ rules) report =
    add_network_rules-level rules (add_network_rule rule report)
    ∙ ap (λ l. larger l (network_weight rules)) (add_network_rule-level rule report)
    ∙ larger_assoc report.level (rule_weight rule) (network_weight rules)

add_fs_rule-level :
    (rule : FsRule) (report : RiskReport)
    → (add_fs_rule rule report).level
      ≡ larger report.level (larger (list_weight 3 rule.write) (list_weight 2 rule.read))
unfolding add_fs_rule
add_fs_rule-level rule report =
    add_list-level 2 _ read_rule rule.read _
    ∙ ap (λ l. larger l (list_weight 2 rule.read)) (add_list-level 3 _ write_rule rule.write report)
    ∙ larger_assoc report.level (list_weight 3 rule.write) (list_weight 2 rule.read)

add_fs_rules-level :
    (rules : List FsRule) (report : RiskReport)
    → (add_fs_rules rules report).level ≡ larger report.level (fs_weight rules)
unfolding add_fs_rules
add_fs_rules-level [] report = ground arith
add_fs_rules-level (rule ∷ rules) report =
    add_fs_rules-level rules (add_fs_rule rule report)
    ∙ ap (λ l. larger l (fs_weight rules)) (add_fs_rule-level rule report)
    ∙ larger_assoc report.level _ (fs_weight rules)

larger_four :
    (a b c d : ℕ) → larger (larger (larger (larger 0 a) b) c) d ≡ larger a (larger b (larger c d))
larger_four a b c d = ground arith

-- The level of a risk report is the highest weight of what is granted: 4 for wildcard hosts and
-- commands, 3 for writing, 2 for other network rules and for reading, 1 for variables, and 0 if
-- there is none.
pub level-analyze_risk : (g : GrantSet) → (analyze_risk (some g)).level ≡ weight g
unfolding analyze_risk analyze_grants
level-analyze_risk g =
    add_list-level 1 _ env_rule (or_empty g.env) _
    ∙ ap (λ l. larger l (list_weight 1 (or_empty g.env)))
        (add_list-level 4 _ exec_rule (or_empty g.exec) _
          ∙ ap (λ l. larger l (list_weight 4 (or_empty g.exec)))
              (add_fs_rules-level (or_empty g.fs) _
                ∙ ap (λ l. larger l (fs_weight (or_empty g.fs)))
                    (add_network_rules-level (or_empty g.network) empty_report)))
    ∙ larger_four (network_weight (or_empty g.network)) (fs_weight (or_empty g.fs)) _ _

IsWildcard-iff : (rule : NetworkRule) → (any is_wildcard_host rule.hosts ≡ true) ↔ IsWildcard rule
unfolding is_wildcard_host
IsWildcard-iff rule =
    any_iff is_wildcard_host _
      (λ h. or_iff _ _ (text_eq_iff h (codes "*")) (text_eq_iff h (codes "0.0.0.0"))) rule.hosts

network_weight_iff :
    (rules : List NetworkRule)
    → (network_weight rules ≤ 4) × ((network_weight rules ≡ 4) ↔ Any IsWildcard rules)
network_weight_iff [] = ground arith
network_weight_iff (rule ∷ rules) = ground (arith, network_weight_iff rules, IsWildcard-iff rule)

list_weight_le : (level : ℕ) (xs : List Str) → list_weight level xs ≤ level
list_weight_le level [] = omega arith
list_weight_le level (x ∷ xs) = omega arith

fs_weight_le : (rules : List FsRule) → fs_weight rules ≤ 3
fs_weight_le [] = omega arith
fs_weight_le (rule ∷ rules) =
    ground (arith, fs_weight_le rules, list_weight_le 3 rule.write, list_weight_le 2 rule.read)

exec_weight_iff : (xs : List Str) → (list_weight 4 xs ≡ 4) ↔ (xs ≢ [])
exec_weight_iff [] = (λ h. ground arith, λ n. absurd (n refl))
exec_weight_iff (x ∷ xs) = (λ h e. cc e, λ n. refl)

critical_weight :
    (a b c d : ℕ)
    → a ≤ 4
    → b ≤ 3
    → c ≤ 4
    → d ≤ 1
    → (larger a (larger b (larger c d)) ≡ 4) ↔ ((a ≡ 4) ⊎ (c ≡ 4))
critical_weight a b c d ha hb hc hd = ground arith

-- A grant set is of critical risk exactly if one of its network rules has a wildcard host, or it
-- grants a command.
pub critical_iff :
    (g : GrantSet)
    → ((analyze_risk (some g)).level ≡ risk_critical)
      ↔ (Any IsWildcard (or_empty g.network) ⊎ (or_empty g.exec ≢ []))
critical_iff g =
    let (n, wild) = network_weight_iff (or_empty g.network) in
    let exec = exec_weight_iff (or_empty g.exec) in
    let (to, from) =
      critical_weight (network_weight (or_empty g.network)) (fs_weight (or_empty g.fs))
        (list_weight 4 (or_empty g.exec)) (list_weight 1 (or_empty g.env)) n
        (fs_weight_le (or_empty g.fs)) (list_weight_le 4 (or_empty g.exec))
        (list_weight_le 1 (or_empty g.env)) in
    rw (level-analyze_risk g) (
      λ h. elim (to h) [ inl a ↦ inl (wild.0 a) | inr c ↦ inr (exec.0 c) ],
      elim [ inl a ↦ from (inl (wild.1 a)) | inr c ↦ from (inr (exec.1 c)) ],
    )
