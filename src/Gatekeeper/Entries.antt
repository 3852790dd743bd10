-- ===== src/Gatekeeper/Entries.antt =====
-- What a run grants, entry by entry.
use mathlib.Core.Path.{subst}
use reglet_hostlib.Base.{
  ◌≡◌, refl, sym, ◌∙◌, ap, ◌↔◌, ◌⊎◌, inl, inr, Bool, true, false, ◌||◌, List, map, [], ◌∷◌, ◌++◌,
  All, Any,
}
use reglet_hostlib.Base.Text.{Str}
use reglet_hostlib.Grants.{GrantSet, KvRule}
use reglet_hostlib.Gatekeeper.{
  SecurityLevel, strict, permissive, Request, answered, Prompter, Abi, Session,
}
use reglet_hostlib.Gatekeeper.Prompting.{entries}
use reglet_hostlib.Gatekeeper.Items.{Item, Entry, item, kv_rule, items, Has, single, request}
use reglet_hostlib.Gatekeeper.Runs.{Step, Run, done, next, with_grant}

-- What the code relies on in the methods of hostfunc.GrantSet, entry by entry: Clone copies, Merge
-- adds the entries of the other set, Difference keeps what the other set has not, Deduplicate
-- keeps what a set grants, and an empty set grants nothing.
pub record IsAbi (abi : Abi) : Type 0 where
  pub clones : (g : GrantSet) → abi.clone g ≡ g
  pub merges :
      (g : GrantSet) (x : Item) (e : Entry)
      → Has (abi.merge g (single x)) e ↔ (Has g e ⊎ (item x ≡ e))
  pub differs : (a b : GrantSet) (e : Entry) → Has a e → Has b e ⊎ Has (abi.difference a b) e
  pub requires : (a b : GrantSet) (e : Entry) → Has (abi.difference a b) e → Has a e
  pub keeps : (g : GrantSet) (e : Entry) → Has (abi.deduplicate g) e ↔ Has g e
  pub empties : (g : GrantSet) (e : Entry) → abi.is_empty g ≡ true → ¬ Has g e

-- Whether an entry is one of the items.
abbrev pub Among : Entry → List Item → Type 0
Among e xs = Any (λ x. item x ≡ e) xs

Among-Has_parts :
    (xs : List Item) (rest : List Entry) (e : Entry)
    → Among e xs
    → Any (λ y. y ≡ e) (map item xs ++ rest)
Among-Has_parts [] rest e a = absurd a
Among-Has_parts (x ∷ xs) rest e (inl same) = inl same
Among-Has_parts (x ∷ xs) rest e (inr a) = inr (Among-Has_parts xs rest e a)

pub Among-Has : (g : GrantSet) (e : Entry) → Among e (items g) → Has g e
Among-Has g e a = Among-Has_parts (items g) _ e a

only_rules : (rules : List KvRule) (x : Item) → ¬ Any (λ y. y ≡ item x) (map kv_rule rules)
only_rules [] x a = a
only_rules (r ∷ rules) x (inl same) = cc
only_rules (r ∷ rules) x (inr a) = only_rules rules x a

Has-Among_parts :
    (xs : List Item) (rules : List KvRule) (x : Item)
    → Any (λ y. y ≡ item x) (map item xs ++ map kv_rule rules)
    → Among (item x) xs
Has-Among_parts [] rules x a = absurd (only_rules rules x a)
Has-Among_parts (y ∷ xs) rules x (inl same) = inl same
Has-Among_parts (y ∷ xs) rules x (inr a) = inr (Has-Among_parts xs rules x a)

pub Has-Among : (g : GrantSet) (x : Item) → Has g (item x) → Among (item x) (items g)
Has-Among g x a = Has-Among_parts (items g) (entries g.kv) x a

module _ {S T U X R : Type 0} where
  step_iff : U ↔ (S ⊎ X) → T ↔ (U ⊎ R) → T ↔ (S ⊎ (X ⊎ R))
  step_iff f g = (
    λ t. elim (g.0 t) [
      | inl u ↦ elim (f.0 u) [ inl s ↦ inl s | inr x ↦ inr (inl x) ]
      | inr r ↦ inr (inr r)
    ],
    elim [
      | inl s ↦ g.1 (inl (f.1 (inl s)))
      | inr xr ↦ elim xr [ inl x ↦ g.1 (inl (f.1 (inr x))) | inr r ↦ g.1 (inr r) ]
    ],
  )

same_iff : (f g : GrantSet) (e : Entry) → f ≡ g → Has f e ↔ (Has g e ⊎ ⊥)
same_iff f g e h = (
  λ a. inl (subst (λ k. Has k e) h a),
  elim [ inl a ↦ subst (λ k. Has k e) (sym h) a | inr n ↦ absurd n ],
)

-- An item that was granted for a reason: by the permissive level, or by the user, whom the strict
-- level asks for no broad item.
pub data Approved (level : SecurityLevel) (p : Prompter) (plugin : Str) (x : Item) : Type 0 where
  by_level : level ≡ permissive → Approved level p plugin x
  by_user :
      (asked : List Request) (always : Bool)
      → (level ≡ strict → (request plugin x).is_broad ≡ false)
      → p.prompt asked (request plugin x) ≡ answered true always
      → Approved level p plugin x

module _ (abi : Abi) (level : SecurityLevel) (p : Prompter) (plugin : Str) where
  Step-grants :
      (x : Item) (s t : Session)
      → Step abi level p plugin x s t
      → t.grants ≡ abi.merge s.grants (single x)
  Step-grants x s t (Step.by_level l e) = ap (λ u. u.grants) e
  Step-grants x s t (Step.by_user a n b q e) = ap (λ u. u.grants) e

  Step-Approved :
      (x : Item) (s t : Session) → Step abi level p plugin x s t → Approved level p plugin x
  Step-Approved x s t (Step.by_level l e) = by_level l
  Step-Approved x s t (Step.by_user a n b q e) = by_user s.prompted a b q

  pub Run-Approved :
      {t : Session} {xs : List Item} {s : Session}
      → Run abi level p plugin t xs s
      → All (Approved level p plugin) xs
  Run-Approved (done same) = tt
  Run-Approved (next {x} {xs} {s} {u} step rest) = (Step-Approved x s u step, Run-Approved rest)

  pub Run-Has :
      (laws : IsAbi abi) (e : Entry) {t : Session} {xs : List Item} {s : Session}
      → Run abi level p plugin t xs s
      → Has t.grants e ↔ (Has s.grants e ⊎ Among e xs)
  Run-Has laws e {t} (done {s} same) = same_iff t.grants s.grants e (ap (λ u. u.grants) same)
  Run-Has laws e (next {x} {xs} {s} {u} step rest) =
      step_iff
        (subst (λ k. Has k e ↔ (Has s.grants e ⊎ (item x ≡ e))) (sym (Step-grants x s u step))
          (laws.merges s.grants x e))
        (Run-Has laws e rest)

module _ (abi : Abi) (p : Prompter) (plugin : Str) where
  pub Run-permissive :
      {t : Session} {xs : List Item} {s : Session}
      → Run abi permissive p plugin t xs s
      → s.should_save ≡ false
      → t.should_save ≡ false
  Run-permissive (done same) h = ap (λ u. u.should_save) same ∙ h
  Run-permissive (next (Step.by_level l e) rest) h =
      Run-permissive rest (ap (λ u. u.should_save) e ∙ ap (λ b. b || false) h)
  Run-permissive (next (Step.by_user a n b q e) rest) h = absurd (n refl)

  pub permissive-Run :
      (xs : List Item) (s : Session) → (t : Session) × Run abi permissive p plugin t xs s
  permissive-Run [] s = (s, done refl)
  permissive-Run (x ∷ xs) s =
      let (t, r) = permissive-Run xs (with_grant abi x false s.prompted s) in
      (t, next (Step.by_level refl refl) r)
