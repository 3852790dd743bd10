-- ===== src/Plugin/Values/Names.antt =====
-- Which names `NewPluginName` accepts.
use mathlib.Core.Path.{subst}
use reglet_hostlib.Base.{
  ap, sym, ◌≤◌, ◌≡◌, refl, ◌≢◌, ◌↔◌, inl, inr, true, false, not, none, [], ◌∷◌, arith, All, any,
  length, Option-cases,
}
use reglet_hostlib.Base.Text.{Str, codes, text_eq_iff, contains, has_prefix, trim_space}
use reglet_hostlib.Plugin.Values.{is_valid_plugin_char, is_separator, check_name, new_plugin_name}

-- One to 64 characters, each a letter, a digit, "_" or "-".
pub record IsName (name : Str) : Type 0 where
  pub nonempty : name ≢ []
  pub short : length name ≤ 64
  pub characters : All (λ c. is_valid_plugin_char c ≡ true) name

valid_characters_iff :
    (name : Str)
    → (any (λ c. not (is_valid_plugin_char c)) name ≡ false)
      ↔ All (λ c. is_valid_plugin_char c ≡ true) name
unfolding any
valid_characters_iff [] = (λ h. tt, λ h. refl)
valid_characters_iff (c ∷ name) = ground (arith, valid_characters_iff name)

no_separator :
    (name : Str) → All (λ c. is_valid_plugin_char c ≡ true) name → any is_separator name ≡ false
unfolding any is_valid_plugin_char
no_separator [] h = refl
no_separator (c ∷ name) (v, h) = ground (arith, no_separator name h)

no_parent :
    (name : Str)
    → All (λ c. is_valid_plugin_char c ≡ true) name
    → contains name (codes "..") ≡ false
unfolding contains has_prefix is_valid_plugin_char
no_parent [] h = refl
no_parent (c ∷ name) (v, h) = ground (arith, no_parent name h)

check_name_iff : (name : Str) → (check_name name ≡ none) ↔ IsName name
unfolding check_name
check_name_iff name = (
  λ h. record {
    nonempty = λ e. ground (arith, text_eq_iff name []);
    short = ground arith;
    characters = (valid_characters_iff name).0 (ground arith);
  },
  λ n. ground (
    arith,
    text_eq_iff name [],
    n.nonempty,
    n.short,
    (valid_characters_iff name).1 n.characters,
    no_separator name n.characters,
    no_parent name n.characters,
  ),
)

-- A plugin name is accepted exactly if, with the white space around it dropped, it has 1 to 64
-- characters, all of them letters, digits, "_" or "-".
pub new_plugin_name_iff :
    (s name : Str) → (new_plugin_name s ≡ inr name) ↔ ((trim_space s ≡ name) × IsName name)
unfolding new_plugin_name
new_plugin_name_iff s name = elim (Option-cases (check_name (trim_space s))) [
  | inl e ↦
      rw (new_plugin_name, e)
        (
          λ h.
              let same : trim_space s ≡ name = cc h in
              (same, subst IsName same ((check_name_iff (trim_space s)).0 e)),
          λ (same, n). ap inr same,
        )
  | inr (error, e) ↦ (
    λ h. absurd (ground arith),
    λ (same, n).
        let fine = (check_name_iff (trim_space s)).1 (subst IsName (sym same) n) in cc (fine, e),
  )
]
