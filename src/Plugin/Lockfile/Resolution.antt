-- ===== src/Plugin/Lockfile/Resolution.antt =====
-- What `ResolvePlugins` does to the lockfile.
use reglet_hostlib.Base.{
  ◌≡◌, refl, ◌≢◌, sym, ◌∙◌, ap, Bool, true, false, Option, some, List, [], ◌∷◌, arith, All, inl,
  inr, Option-cases,
}
use reglet_hostlib.Base.Text.{Str, text_eq_iff}
use reglet_hostlib.Base.Map.{lookup}
use reglet_hostlib.Plugin.Spec.{PluginSpec, parse_plugin_declaration}
use reglet_hostlib.Plugin.Lockfile.{Lockfile, ok, get_plugin, >>=-eq-ok}
use reglet_hostlib.Plugin.Lockfile.Service.{
  Machine, Disk, or_new, save_updated, constraint_of, is_locked, resolve_spec, resolve_one,
  resolve_each, resolve_plugins, load, save,
}
use reglet_hostlib.Plugin.Lockfile.Steps.{Pins, Satisfies, resolve_spec_lem, resolve_spec_locked}

-- No declaration that parses has the name.
abbrev pub IsNot : Str → Str → Type 0
IsNot name declaration =
    (spec : PluginSpec) → parse_plugin_declaration declaration ≡ some spec → spec.name ≢ name

-- Two declarations that do not name the same plugin.
abbrev pub Differ : Str → Str → Type 0
Differ d e =
    (s t : PluginSpec)
    → parse_plugin_declaration d ≡ some s
    → parse_plugin_declaration e ≡ some t
    → t.name ≢ s.name

abbrev pub HasDistinctNames : List Str → Type 0
HasDistinctNames [] = Unit
HasDistinctNames (d ∷ ds) = All (Differ d) ds × HasDistinctNames ds

resolve_one_parses :
    (m : Machine) (d : Str) (l l' : Lockfile) (u u' : Bool)
    → resolve_one m d (l, u) ≡ ok (l', u')
    → (spec : PluginSpec) × (parse_plugin_declaration d ≡ some spec)
      × (resolve_spec m spec (l, u) ≡ ok (l', u'))
unfolding resolve_one
resolve_one_parses m d l l' u u' h = elim (Option-cases (parse_plugin_declaration d)) [
  | inl e ↦ absurd (ground arith)
  | inr (spec, e) ↦ (spec, e, cc)
]

resolve_one_frame :
    (m : Machine) (d : Str) (l l' : Lockfile) (u u' : Bool) (name : Str)
    → resolve_one m d (l, u) ≡ ok (l', u')
    → IsNot name d
    → get_plugin l' name ≡ get_plugin l name
resolve_one_frame m d l l' u u' name h other =
    let (spec, e, step) = resolve_one_parses m d l l' u u' h in
    (resolve_spec_lem m spec l l' u u' step).frame name (other spec e)

-- A name that no declaration has keeps its lock.
pub resolve_each_frame :
    (m : Machine) (ds : List Str) (l l' : Lockfile) (u u' : Bool) (name : Str)
    → resolve_each m ds (l, u) ≡ ok (l', u')
    → All (IsNot name) ds
    → get_plugin l' name ≡ get_plugin l name
unfolding resolve_each
resolve_each_frame m [] l l' u u' name h others =
    let same : l ≡ l' = cc h in ap (λ k. get_plugin k name) (sym same)
resolve_each_frame m (d ∷ ds) l l' u u' name h (other, others) =
    let ((k, v), one, rest) = >>=-eq-ok (resolve_one m d (l, u)) _ h in
    resolve_each_frame m ds k l' v u' name rest others
    ∙ resolve_one_frame m d l k u v name one other

Pins-frame :
    (l l' : Lockfile) (name constraint : Str)
    → get_plugin l' name ≡ get_plugin l name
    → Pins l name constraint
    → Pins l' name constraint
Pins-frame l l' name constraint same (lock, e, r) = (lock, same ∙ e, r)

All-IsNot :
    (d : Str) (spec : PluginSpec)
    → parse_plugin_declaration d ≡ some spec
    → (ds : List Str) → All (Differ d) ds
    → All (IsNot spec.name) ds
All-IsNot d spec e [] h = tt
All-IsNot d spec e (f ∷ ds) (p, h) = (λ t e'. p spec t e e', All-IsNot d spec e ds h)

-- After the loop every declaration is satisfied.
pub resolve_each-Satisfies :
    (m : Machine) (ds : List Str) (l l' : Lockfile) (u u' : Bool)
    → resolve_each m ds (l, u) ≡ ok (l', u')
    → HasDistinctNames ds
    → All (Satisfies l') ds
unfolding resolve_each
resolve_each-Satisfies m [] l l' u u' h distinct = tt
resolve_each-Satisfies m (d ∷ ds) l l' u u' h (differ, distinct) =
    let ((k, v), one, rest) = >>=-eq-ok (resolve_one m d (l, u)) _ h in
    let (spec, e, step) = resolve_one_parses m d l k u v one in
    (
      (
        spec,
        e,
        Pins-frame k l' spec.name (constraint_of spec)
            (resolve_each_frame m ds k l' v u' spec.name rest (All-IsNot d spec e ds differ))
            (resolve_spec_lem m spec l k u v step).pins,
      ),
      resolve_each-Satisfies m ds k l' v u' rest distinct,
    )

Pins-is_locked :
    (l : Lockfile) (name constraint : Str)
    → Pins l name constraint
    → is_locked constraint (get_plugin l name) ≡ true
Pins-is_locked l name constraint (lock, e, r) =
    rw e (ground (arith, text_eq_iff lock.requested constraint))

resolve_one_parsed :
    (m : Machine) (d : Str) (spec : PluginSpec) (l : Lockfile) (u : Bool)
    → parse_plugin_declaration d ≡ some spec
    → resolve_one m d (l, u) ≡ resolve_spec m spec (l, u)
unfolding resolve_one
resolve_one_parsed m d spec l u e = rw (resolve_one, e) refl

-- Declarations that are satisfied change nothing.
pub resolve_each_stable :
    (m : Machine) (ds : List Str) (l : Lockfile) (u : Bool)
    → All (Satisfies l) ds
    → resolve_each m ds (l, u) ≡ ok (l, u)
unfolding resolve_each
resolve_each_stable m [] l u h = refl
resolve_each_stable m (d ∷ ds) l u ((spec, e, pins), h) =
    let locked = Pins-is_locked l spec.name (constraint_of spec) pins in
    let one : resolve_one m d (l, u) ≡ ok (l, u) =
      resolve_one_parsed m d spec l u e ∙ resolve_spec_locked m spec l u locked in
    rw one (resolve_each_stable m ds l u h)

-- The lockfile a run works on: what it found on disk, or a new one.
abbrev pub StartsFrom : Machine → Disk → Lockfile → Type 0
StartsFrom m disk l = (found : Option Lockfile) × (load m disk ≡ ok found) × (or_new m found ≡ l)

resolve_plugins_run :
    (m : Machine) (ds : List Str) (disk disk' : Disk) (l' : Lockfile)
    → resolve_plugins m ds disk ≡ ok (l', disk')
    → (l k : Lockfile) × (u : Bool) × StartsFrom m disk l
      × (resolve_each m ds (l, false) ≡ ok (k, u))
      × (save_updated m disk (k, u) ≡ ok (l', disk'))
unfolding resolve_plugins
resolve_plugins_run m ds disk disk' l' h =
    let (found, read, rest) = >>=-eq-ok (load m disk) _ h in
    let ((k, u), each, saved) = >>=-eq-ok (resolve_each m ds (or_new m found, false)) _ rest in
    (or_new m found, k, u, (found, read, refl), each, saved)

save_updated_plugins :
    (m : Machine) (disk disk' : Disk) (k l' : Lockfile) (u : Bool)
    → save_updated m disk (k, u) ≡ ok (l', disk')
    → k.plugins ≡ l'.plugins
save_updated_plugins m disk disk' k l' false h = cc h
save_updated_plugins m disk disk' k l' true h =
    let (d, saved, rest) = >>=-eq-ok (save m (record k { generated = m.now }) disk) _ h in
    ground arith

Satisfies-plugins :
    (k l : Lockfile)
    → k.plugins ≡ l.plugins
    → (ds : List Str) → All (Satisfies k) ds
    → All (Satisfies l) ds
Satisfies-plugins k l same [] h = tt
Satisfies-plugins k l same (d ∷ ds) ((spec, e, (lock, at, r)), h) = (
  (spec, e, (lock, unfold get_plugin in ap (lookup spec.name) (sym same) ∙ at, r)),
  Satisfies-plugins k l same ds h,
)

-- A run of `ResolvePlugins` that succeeds, on declarations that name distinct plugins, satisfies
-- every declaration, keeps the lock of every name that is not declared, and leaves nothing for a
-- second run of the loop, on any machine, to change.
pub resolve_plugins_lem :
    (m : Machine) (ds : List Str) (disk disk' : Disk) (l' : Lockfile)
    → resolve_plugins m ds disk ≡ ok (l', disk')
    → HasDistinctNames ds
    → (l : Lockfile) × StartsFrom m disk l
      × All (Satisfies l') ds
      × ((name : Str) → All (IsNot name) ds → get_plugin l' name ≡ get_plugin l name)
      × ((later : Machine) → resolve_each later ds (l', false) ≡ ok (l', false))
resolve_plugins_lem m ds disk disk' l' h distinct =
    let (l, k, u, start, each, saved) = resolve_plugins_run m ds disk disk' l' h in
    let same = save_updated_plugins m disk disk' k l' u saved in
    let satisfied =
      Satisfies-plugins k l' same ds (resolve_each-Satisfies m ds l k false u each distinct) in
    (
      l,
      start,
      satisfied,
      λ name others.
          unfold get_plugin in
          ap (lookup name) (sym same) ∙ resolve_each_frame m ds l k false u name each others,
      λ later. resolve_each_stable later ds l' false satisfied,
    )
