-- ===== src/Plugin/Lockfile/Steps.antt =====
-- One round of the loop of `ResolvePlugins`: what a declaration does to the lockfile.
use mathlib.Core.Path.{subst}
use reglet_hostlib.Base.{
  ◌≡◌, refl, ◌≢◌, Bool, true, false, some, arith, inl, inr, Bool-cases, Option-cases,
}
use reglet_hostlib.Base.Text.{Str, text_eq_iff}
use reglet_hostlib.Base.Map.{insert, lookup-insert_self, lookup-insert_ne}
use reglet_hostlib.Plugin.Spec.{PluginSpec, parse_plugin_declaration}
use reglet_hostlib.Plugin.Lockfile.{PluginLock, Lockfile, ok, add_plugin, get_plugin}
use reglet_hostlib.Plugin.Lockfile.Service.{
  Machine, constraint_of, new_lock, is_locked, resolve_spec,
}

-- The lockfile pins a name to a constraint.
abbrev pub Pins : Lockfile → Str → Str → Type 0
Pins l name constraint =
    (lock : PluginLock) × (get_plugin l name ≡ some lock) × (lock.requested ≡ constraint)

-- The lockfile has what a declaration asks for.
abbrev pub Satisfies : Lockfile → Str → Type 0
Satisfies l declaration =
    (spec : PluginSpec) × (parse_plugin_declaration declaration ≡ some spec)
    × Pins l spec.name (constraint_of spec)

is_locked-Pins :
    (l : Lockfile) (name constraint : Str)
    → is_locked constraint (get_plugin l name) ≡ true
    → Pins l name constraint
is_locked-Pins l name constraint h = elim (Option-cases (get_plugin l name)) [
  | inl e ↦ ground arith
  | inr (lock, e) ↦ (lock, e, ground (arith, text_eq_iff lock.requested constraint))
]

-- The lockfile after one declaration; the placeholder digest is never refused.
abbrev pin : Machine → PluginSpec → Lockfile → Lockfile
pin m spec l = record l { plugins = insert spec.name (new_lock m spec) l.plugins }

pub resolve_spec_locked :
    (m : Machine) (spec : PluginSpec) (l : Lockfile) (u : Bool)
    → is_locked (constraint_of spec) (get_plugin l spec.name) ≡ true
    → resolve_spec m spec (l, u) ≡ ok (l, u)
resolve_spec_locked m spec l u e = rw e

resolve_spec_open :
    (m : Machine) (spec : PluginSpec) (l : Lockfile) (u : Bool)
    → is_locked (constraint_of spec) (get_plugin l spec.name) ≡ false
    → resolve_spec m spec (l, u) ≡ ok (pin m spec l, true)
resolve_spec_open m spec l u e = rw e (unfold add_plugin in refl)

pin-Pins :
    (m : Machine) (spec : PluginSpec) (l : Lockfile)
    → Pins (pin m spec l) spec.name (constraint_of spec)
pin-Pins m spec l =
    (new_lock m spec, unfold get_plugin in lookup-insert_self spec.name _ l.plugins, refl)

pin-frame :
    (m : Machine) (spec : PluginSpec) (l : Lockfile) (name : Str)
    → spec.name ≢ name
    → get_plugin (pin m spec l) name ≡ get_plugin l name
unfolding get_plugin
pin-frame m spec l name n = lookup-insert_ne spec.name name _ l.plugins n

-- One declaration: it is satisfied afterwards, and every other name keeps its lock.
pub record Step (m : Machine) (spec : PluginSpec) (l l' : Lockfile) : Type 0 where
  pub pins : Pins l' spec.name (constraint_of spec)
  pub frame : (name : Str) → spec.name ≢ name → get_plugin l' name ≡ get_plugin l name

pub resolve_spec_lem :
    (m : Machine) (spec : PluginSpec) (l l' : Lockfile) (u u' : Bool)
    → resolve_spec m spec (l, u) ≡ ok (l', u')
    → Step m spec l l'
resolve_spec_lem m spec l l' u u' h =
    elim (Bool-cases (is_locked (constraint_of spec) (get_plugin l spec.name))) [
      | inl e ↦
          let same : l ≡ l' = cc (resolve_spec_locked m spec l u e, h) in
          subst (Step m spec l) same (record {
            pins = is_locked-Pins l spec.name (constraint_of spec) e;
            frame = λ name n. refl;
          })
      | inr e ↦
          let same : pin m spec l ≡ l' = cc (resolve_spec_open m spec l u e, h) in
          subst (Step m spec l) same
            (record { pins = pin-Pins m spec l; frame = pin-frame m spec l })
    ]
