-- ===== src/Registry/Building.antt =====
-- When `NewRegistry` succeeds, and the table of handlers that it builds.
use mathlib.Core.Path.{subst}
use reglet_hostlib.Base.{◌≡◌, refl, ap, ◌≢◌, ◌↔◌, Option, none, some, List, [], ◌∷◌, ◌++◌, arith}
use reglet_hostlib.Base.Text.{Str, text_eq_iff}
use reglet_hostlib.Base.Map.{Map, lookup, insert, lookup-insert}
use reglet_hostlib.Registry.{
  Middleware, RegistryBuilder, RegistryOption, with_handler, with_bundle, with_middleware, rejects,
  add_handler, add_bundle, BuildError, enter,
}

snoc-ne-nil {ℓ} : {A : Type ℓ} (xs : List A) (x : A) → xs ++ x ∷ [] ≢ []
snoc-ne-nil [] x h = cc h
snoc-ne-nil (y ∷ xs) x h = cc h

module _ {ℓ} {H : Type ℓ} where
  -- What the options register, in order: the handlers with their names, and the middleware.
  abbrev pub entries : List (RegistryOption H) → Map H
  entries [] = []
  entries (with_handler name h ∷ os) = (name, h) ∷ entries os
  entries (with_bundle m ∷ os) = m ++ entries os
  entries (with_middleware mw ∷ os) = entries os

  abbrev pub chain : List (RegistryOption H) → List (Middleware H)
  chain [] = []
  chain (with_handler name h ∷ os) = chain os
  chain (with_bundle m ∷ os) = chain os
  chain (with_middleware mw ∷ os) = mw ++ chain os

  -- No name is empty, and none stands twice.
  abbrev pub HasGoodNames : Map H → Type ℓ
  HasGoodNames [] = Unit
  HasGoodNames ((name, h) ∷ m) = (name ≢ []) × (lookup name m ≡ none) × HasGoodNames m

  -- No name of the one is a name of the other.
  abbrev pub AreApart : Map H → Map H → Type ℓ
  AreApart [] handlers = Unit
  AreApart ((name, h) ∷ m) handlers = (lookup name handlers ≡ none) × AreApart m handlers

  abbrev pub with_chain : List (Middleware H) → RegistryBuilder H → RegistryBuilder H
  with_chain ms b = record b { middleware = ms }

  rejects_iff :
      (name : Str) (found : Option H) → (rejects name found ≡ none) ↔ ((name ≢ []) × (found ≡ none))
  rejects_iff [] found = (λ h. cc h, λ (n, e). absurd (n refl))
  rejects_iff (c ∷ name) none = (λ h. (λ e. cc e, refl), λ e. refl)
  rejects_iff (c ∷ name) (some h) = (λ e. cc e, λ (n, e). cc e)

  pub add_handler_accepted :
      (name : Str) (h : H) (b : RegistryBuilder H)
      → name ≢ []
      → lookup name b.handlers ≡ none
      → add_handler name h b ≡ record b { handlers = insert name h b.handlers }
  unfolding add_handler
  add_handler_accepted name h b n e =
      ap (λ o. enter o name h b) ((rejects_iff name (lookup name b.handlers)).1 (n, e))

  enter_clean :
      (o : Option BuildError) (name : Str) (h : H) (b : RegistryBuilder H)
      → (enter o name h b).errors ≡ []
      → (b.errors ≡ []) × (o ≡ none)
  enter_clean none name h b clean = (clean, refl)
  enter_clean (some e) name h b clean = absurd (snoc-ne-nil b.errors e clean)

  add_handler_clean :
      (name : Str) (h : H) (b : RegistryBuilder H)
      → (add_handler name h b).errors ≡ []
      → (b.errors ≡ []) × (name ≢ []) × (lookup name b.handlers ≡ none)
  unfolding add_handler
  add_handler_clean name h b clean =
      let (before, accepted) = enter_clean (rejects name (lookup name b.handlers)) name h b clean in
      let (n, free) = (rejects_iff name (lookup name b.handlers)).0 accepted in (before, n, free)

  pub AreApart-insert :
      (name : Str) (h : H) (m handlers : Map H)
      → AreApart m (insert name h handlers) ↔ ((lookup name m ≡ none) × AreApart m handlers)
  unfolding lookup
  AreApart-insert name h [] handlers = (λ t. (refl, tt), λ t. tt)
  AreApart-insert name h ((other, g) ∷ m) handlers =
      let (to, from) = AreApart-insert name h m handlers in
      let at = lookup-insert name other h handlers in
      let same = text_eq_iff name other in
      let back = text_eq_iff other name in
      (
        λ (e, rest). let (free, apart) = to rest in (ground arith, (ground arith, apart)),
        λ (e, (e', rest)). (ground arith, from (ground arith, rest)),
      )

  -- Adding a bundle raises no error exactly if its names are good, and new.
  pub add_bundle_iff :
      (m : Map H) (b : RegistryBuilder H)
      → ((add_bundle m b).errors ≡ []) ↔ ((b.errors ≡ []) × HasGoodNames m × AreApart m b.handlers)
  unfolding add_bundle
  add_bundle_iff [] b = (λ e. (e, tt, tt), λ (e, t, t'). e)
  add_bundle_iff ((name, h) ∷ m) b = (
    λ clean.
        let (clean', good, apart) = (add_bundle_iff m (add_handler name h b)).0 clean in
        let (before, n, free) = add_handler_clean name h b clean' in
        let apart' = ap (λ x. x.handlers) (add_handler_accepted name h b n free) in
        let (once, rest) =
          (AreApart-insert name h m b.handlers).0 (subst (AreApart m) apart' apart) in
        (before, (n, once, good), (free, rest)),
    λ (before, (n, once, good), (free, rest)).
        let accepted = add_handler_accepted name h b n free in
        rw (add_bundle, accepted)
          ((add_bundle_iff m (record b { handlers = insert name h b.handlers })).1
            (before, good, (AreApart-insert name h m b.handlers).1 (once, rest))),
  )
