-- ===== src/Registry/Dispatch.antt =====
-- What `NewRegistry` makes of its options, and where `Invoke` sends a call.
use mathlib.Core.List.{reverse_aux}
use mathlib.Core.Path.{subst}
use reglet_hostlib.Base.{
  ◌≡◌, refl, sym, ap, ◌∙◌, ◌↔◌, inl, inr, Option, none, some, List, [], ◌∷◌, ◌++◌, arith,
  append-nil, append_assoc, Bool-cases,
}
use reglet_hostlib.Base.Text.{Str, text_eq, text_eq_iff, or_else}
use reglet_hostlib.Base.Map.{Map, lookup, insert, lookup-insert, map_values}
use reglet_hostlib.Registry.{
  Middleware, RegistryBuilder, HandlerRegistry, RegistryOption, with_handler, with_bundle,
  BuildError, with_middleware, rejects, enter, add_handler, add_bundle, apply_option, apply_options,
  new_builder, new_registry, Built, built, failed, finish, wrap_each, wrap, Context, ErrorResponse,
  new_not_found_error, host_context_from, ByteHandler, call, invoke,
}
use reglet_hostlib.Registry.Building.{
  entries, chain, HasGoodNames, AreApart, AreApart-insert, with_chain, add_handler_accepted,
  add_bundle_iff,
}

module _ {ℓ} {H : Type ℓ} where
  enter-with_chain :
      (o : Option BuildError) (name : Str) (h : H) (ms : List (Middleware H))
      (b : RegistryBuilder H)
      → enter o name h (with_chain ms b) ≡ with_chain ms (enter o name h b)
  enter-with_chain none name h ms b = refl
  enter-with_chain (some e) name h ms b = refl

  add_bundle-with_chain :
      (m : Map H) (ms : List (Middleware H)) (b : RegistryBuilder H)
      → add_bundle m (with_chain ms b) ≡ with_chain ms (add_bundle m b)
  unfolding add_bundle add_handler
  add_bundle-with_chain [] ms b = refl
  add_bundle-with_chain ((name, h) ∷ m) ms b =
      ap (add_bundle m) (enter-with_chain (rejects name (lookup name b.handlers)) name h ms b)
      ∙ add_bundle-with_chain m ms (add_handler name h b)

  add_bundle-append :
      (m m' : Map H) (b : RegistryBuilder H)
      → add_bundle (m ++ m') b ≡ add_bundle m' (add_bundle m b)
  unfolding add_bundle
  add_bundle-append [] m' b = refl
  add_bundle-append ((name, h) ∷ m) m' b = add_bundle-append m m' (add_handler name h b)

  enter_middleware :
      (o : Option BuildError) (name : Str) (h : H) (b : RegistryBuilder H)
      → (enter o name h b).middleware ≡ b.middleware
  enter_middleware none name h b = refl
  enter_middleware (some e) name h b = refl

  add_handler_middleware :
      (name : Str) (h : H) (b : RegistryBuilder H)
      → (add_handler name h b).middleware ≡ b.middleware
  unfolding add_handler
  add_handler_middleware name h b =
      enter_middleware (rejects name (lookup name b.handlers)) name h b

  add_bundle_middleware :
      (m : Map H) (b : RegistryBuilder H) → (add_bundle m b).middleware ≡ b.middleware
  unfolding add_bundle add_handler
  add_bundle_middleware [] b = refl
  add_bundle_middleware ((name, h) ∷ m) b =
      add_bundle_middleware m (add_handler name h b)
      ∙ enter_middleware (rejects name (lookup name b.handlers)) name h b

  -- The options do what one bundle with all the entries does, and add their middleware in order.
  apply_options_lem :
      (opts : List (RegistryOption H)) (b : RegistryBuilder H)
      → apply_options opts b ≡ with_chain (b.middleware ++ chain opts) (add_bundle (entries opts) b)
  unfolding apply_options apply_option
  apply_options_lem [] b =
      unfold add_bundle in ap (λ ms. with_chain ms b) (sym (append-nil b.middleware))
  apply_options_lem (with_handler name h ∷ os) b =
      apply_options_lem os (add_handler name h b)
      ∙ ap (λ ms. with_chain (ms ++ chain os) (add_bundle (entries os) (add_handler name h b)))
          (add_handler_middleware name h b)
      ∙ unfold add_bundle in refl
  apply_options_lem (with_bundle m ∷ os) b =
      apply_options_lem os (add_bundle m b)
      ∙ ap (λ ms. with_chain (ms ++ chain os) (add_bundle (entries os) (add_bundle m b)))
          (add_bundle_middleware m b)
      ∙ ap (with_chain (b.middleware ++ chain os)) (sym (add_bundle-append m (entries os) b))
  apply_options_lem (with_middleware mw ∷ os) b =
      apply_options_lem os (with_chain (b.middleware ++ mw) b)
      ∙ ap (with_chain ((b.middleware ++ mw) ++ chain os))
          (add_bundle-with_chain (entries os) (b.middleware ++ mw) b)
      ∙ ap (λ ms. with_chain ms (add_bundle (entries os) b))
          (append_assoc b.middleware mw (chain os))

  or_else-insert :
      (name k : Str) (h : H) (m handlers : Map H)
      → lookup name m ≡ none
      → or_else (lookup k m) (lookup k (insert name h handlers))
        ≡ or_else (lookup k ((name, h) ∷ m)) (lookup k handlers)
  unfolding lookup
  or_else-insert name k h m handlers once = elim (Bool-cases (text_eq name k)) [
    | inl e ↦
        let same : name ≡ k = (text_eq_iff name k).0 e in
        let none_there : lookup k m ≡ none = subst (λ j. lookup j m ≡ none) same once in
        rw (lookup-insert name k h handlers, e, none_there) refl
    | inr e ↦ rw (lookup-insert name k h handlers, e) refl
  ]

  lookup-add_bundle :
      (m : Map H) (b : RegistryBuilder H) (k : Str)
      → HasGoodNames m
      → AreApart m b.handlers
      → lookup k (add_bundle m b).handlers ≡ or_else (lookup k m) (lookup k b.handlers)
  unfolding add_bundle
  lookup-add_bundle [] b k good apart = unfold lookup in refl
  lookup-add_bundle ((name, h) ∷ m) b k (n, once, good) (free, apart) =
      ap (λ c. lookup k (add_bundle m c).handlers) (add_handler_accepted name h b n free)
      ∙ lookup-add_bundle m (record b { handlers = insert name h b.handlers }) k good
          ((AreApart-insert name h m b.handlers).1 (once, apart))
      ∙ or_else-insert name k h m b.handlers once

  -- The table of a registry that was built: the entry of a name, in the whole chain.
  wrapped : (H → H) → Option H → Option H
  wrapped f none = none
  wrapped f (some h) = some (f h)

  lookup-map_values :
      (f : H → H) (k : Str) (m : Map H) → lookup k (map_values f m) ≡ wrapped f (lookup k m)
  unfolding lookup map_values wrapped
  lookup-map_values f k [] = refl
  lookup-map_values f k ((j, h) ∷ m) = ground (arith, lookup-map_values f k m)

  table : Built H → Map H
  table (built r) = r.handlers
  table (failed e) = []

  finish_built :
      (b : RegistryBuilder H) (errors : List BuildError) (r : HandlerRegistry H)
      → finish b errors ≡ built r
      → (errors ≡ []) × (r.handlers ≡ map_values (wrap b.middleware) b.handlers)
  unfolding table
  finish_built b [] r h = (refl, sym (ap table h))
  finish_built b (e ∷ es) r h = cc h

  apart_nil : (m : Map H) → AreApart m []
  apart_nil [] = tt
  apart_nil ((name, h) ∷ m) = (unfold lookup in refl, apart_nil m)

  -- `NewRegistry` builds a registry exactly if no name that the options register is empty or stands
  -- twice.
  pub new_registry_iff :
      (opts : List (RegistryOption H))
      → ((r : HandlerRegistry H) × (new_registry opts ≡ built r)) ↔ HasGoodNames (entries opts)
  unfolding new_registry
  new_registry_iff opts =
      let start = apply_options_lem opts new_builder in
      let iff = add_bundle_iff (entries opts) new_builder in
      let same_errors = ap (λ b. b.errors) start in
      (
        λ (r, h).
            let (clean, at) = finish_built (apply_options opts new_builder) _ r h in
            (iff.0 (sym same_errors ∙ clean)).1,
        λ good.
            let clean = same_errors ∙ iff.1 (refl, good, apart_nil (entries opts)) in
            (_, ap (finish (apply_options opts new_builder)) clean),
      )

  or_else_nil : (k : Str) (o : Option H) → or_else o (lookup k []) ≡ o
  unfolding lookup
  or_else_nil k none = refl
  or_else_nil k (some h) = refl

  -- The table of a registry that was built.
  lookup_built :
      (opts : List (RegistryOption H)) (r : HandlerRegistry H) (k : Str)
      → new_registry opts ≡ built r
      → lookup k r.handlers ≡ wrapped (wrap (chain opts)) (lookup k (entries opts))
  unfolding new_registry
  lookup_built opts r k h =
      let start = apply_options_lem opts new_builder in
      let (clean, at) = finish_built (apply_options opts new_builder) _ r h in
      let good = (new_registry_iff opts).0 (r, h) in
      ap (lookup k) at
      ∙ ap (λ b. lookup k (map_values (wrap b.middleware) b.handlers)) start
      ∙ lookup-map_values (wrap (chain opts)) k (add_bundle (entries opts) new_builder).handlers
      ∙ ap (wrapped (wrap (chain opts))) (
          lookup-add_bundle (entries opts) new_builder k good (apart_nil (entries opts))
          ∙ or_else_nil k (lookup k (entries opts)))

-- The onion of a handler: each middleware around the onion of those behind it.
abbrev pub onion {ℓ} : {H : Type ℓ} → List (Middleware H) → H → H
onion [] h = h
onion (m ∷ ms) h = m (onion ms h)

-- The loop goes from the inside to the outside.
wrap_each-reverse_aux {ℓ} :
    {H : Type ℓ} (ms done : List (Middleware H)) (h : H)
    → wrap_each (reverse_aux ms done) h ≡ wrap_each done (onion ms h)
unfolding wrap_each
wrap_each-reverse_aux [] done h = refl
wrap_each-reverse_aux (m ∷ ms) done h = wrap_each-reverse_aux ms (m ∷ done) h

wrap-onion {ℓ} : {H : Type ℓ} (ms : List (Middleware H)) (h : H) → wrap ms h ≡ onion ms h
unfolding wrap wrap_each
wrap-onion ms h = wrap_each-reverse_aux ms [] h

-- Where a call of a name should go: to the onion of the name's entry, or to an error.
abbrev pub dispatched {ℓ} :
    {R : Type ℓ}
    → (ErrorResponse → R)
    → List (Middleware (ByteHandler R))
    → Context
    → Str
    → Str
    → Option (ByteHandler R)
    → R
dispatched respond ms ctx name payload none = respond (new_not_found_error name)
dispatched respond ms ctx name payload (some h) = onion ms h (host_context_from ctx name) payload

call-wrapped {ℓ} :
    {R : Type ℓ} (respond : ErrorResponse → R) (ms : List (Middleware (ByteHandler R)))
    (ctx : Context) (name payload : Str) (o : Option (ByteHandler R))
    → call respond ctx name payload (wrapped (wrap ms) o) ≡ dispatched respond ms ctx name payload o
unfolding wrapped
call-wrapped respond ms ctx name payload none = refl
call-wrapped respond ms ctx name payload (some h) =
    ap (λ f. f (host_context_from ctx name) payload) (wrap-onion ms h)

-- A call of a registry goes to the handler that the options register under the name, inside all
-- their middleware, in the order of the options: each middleware is around those behind it, so the
-- first is outermost; a name that they do not register is answered by a not-found error.
pub invoke_lem {ℓ} :
    {R : Type ℓ} (respond : ErrorResponse → R) (opts : List (RegistryOption (ByteHandler R)))
    (r : HandlerRegistry (ByteHandler R)) (ctx : Context) (name payload : Str)
    → new_registry opts ≡ built r
    → invoke respond r ctx name payload
      ≡ dispatched respond (chain opts) ctx name payload (lookup name (entries opts))
unfolding invoke
invoke_lem {R = R} respond opts r ctx name payload h =
    ap (call respond ctx name payload) (lookup_built opts r name h)
    ∙ call-wrapped respond (chain opts) ctx name payload (lookup name (entries opts))
