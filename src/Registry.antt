-- ===== src/Registry.antt =====
-- registry.go, the constructors of middleware.go, errors.go and the bundles of bundle.go: the
-- registry of named host functions. `H` is the type of handlers, and what a handler does is left
-- to the components that model one. A Go map is iterated in the order of its entries.
pub mod Building
pub mod Dispatch
pub mod Examples
use mathlib.Core.List.{reverse}
use reglet_hostlib.Base.{
  ℕ, Bool, true, false, Option, none, some, ◌⊎◌, inl, inr, List, [], ◌∷◌, ◌++◌, map, if◌then◌else◌,
  ltb, ◌==◌,
}
use reglet_hostlib.Base.Text.{Str, codes, text_eq}
use reglet_hostlib.Base.Map.{Map, lookup, insert, map_values}

-- errors.go
pub record ErrorResponse : Type 0 where
  pub error : Str
  pub message : Str
  pub code : ℕ

abbrev pub new_validation_error : Str → ErrorResponse
new_validation_error message = record {
  error = codes "VALIDATION_ERROR";
  message = message;
  code = 400;
}

abbrev pub new_not_found_error : Str → ErrorResponse
new_not_found_error name = record {
  error = codes "NOT_FOUND";
  message = codes "unknown host function: " ++ name;
  code = 404;
}

abbrev pub new_internal_error : Str → ErrorResponse
new_internal_error message = record {
  error = codes "INTERNAL_ERROR";
  message = message;
  code = 500;
}

-- The errors of addHandler.
pub data BuildError : Type 0 where
  empty_name : BuildError
  duplicate_name : Str → BuildError

-- sort.Strings: the order of the bytes.
unfoldable pub str_lt : Str → Str → Bool
str_lt [] [] = false
str_lt [] (b ∷ t) = true
str_lt (a ∷ s) [] = false
str_lt (a ∷ s) (b ∷ t) =
    let rest = str_lt s t in if ltb a b then true else if a == b then rest else false

unfoldable pub insert_sorted : Str → List Str → List Str
unfolding str_lt
insert_sorted s [] = s ∷ []
insert_sorted s (t ∷ ts) =
    let rest = insert_sorted s ts in if str_lt t s then t ∷ rest else s ∷ t ∷ ts

unfoldable pub sort_strings : List Str → List Str
unfolding insert_sorted
sort_strings [] = []
sort_strings (s ∷ ss) = insert_sorted s (sort_strings ss)

module _ {ℓ} (H : Type ℓ) where
  abbrev pub Middleware : Type ℓ
  Middleware = H → H

  pub record RegistryBuilder : Type ℓ where
    pub handlers : Map H
    pub middleware : List Middleware
    pub errors : List BuildError

  pub record HandlerRegistry : Type ℓ where
    pub handlers : Map H
    pub names : List Str
    pub middleware : List Middleware

  -- WithByteHandler and WithHandler, WithBundle, and WithMiddleware; a bundle is the entries of its map.
  pub data RegistryOption : Type ℓ where
    with_handler : Str → H → RegistryOption
    with_bundle : Map H → RegistryOption
    with_middleware : List Middleware → RegistryOption

-- What NewRegistry returns.
pub data Built {ℓ} (H : Type ℓ) : Type ℓ where
  built : HandlerRegistry H → Built H
  failed : BuildError → Built H

module _ {ℓ} {H : Type ℓ} where
  abbrev pub new_builder : RegistryBuilder H
  new_builder = record { handlers = []; middleware = []; errors = [] }

  -- addHandler; the builder's errors are the caller's.
  abbrev pub rejects : Str → Option H → Option BuildError
  rejects [] found = some empty_name
  rejects (c ∷ name) none = none
  rejects (c ∷ name) (some h) = some (duplicate_name (c ∷ name))

  abbrev pub enter : Option BuildError → Str → H → RegistryBuilder H → RegistryBuilder H
  enter none name h b = record b { handlers = insert name h b.handlers }
  enter (some e) name h b = record b { errors = b.errors ++ e ∷ [] }

  unfoldable pub add_handler : Str → H → RegistryBuilder H → RegistryBuilder H
  add_handler name h b = enter (rejects name (lookup name b.handlers)) name h b

  unfoldable pub add_bundle : Map H → RegistryBuilder H → RegistryBuilder H
  add_bundle [] b = b
  add_bundle ((name, h) ∷ m) b = add_bundle m (add_handler name h b)

  unfoldable pub apply_option : RegistryOption H → RegistryBuilder H → RegistryBuilder H
  apply_option (with_handler name h) b = add_handler name h b
  apply_option (with_bundle m) b = add_bundle m b
  apply_option (with_middleware mw) b = record b { middleware = b.middleware ++ mw }

  unfoldable pub apply_options : List (RegistryOption H) → RegistryBuilder H → RegistryBuilder H
  apply_options [] b = b
  apply_options (o ∷ os) b = apply_options os (apply_option o b)

  -- wrapped = m(wrapped), for each middleware in the order of the loop
  unfoldable pub wrap_each : List (Middleware H) → H → H
  wrap_each [] wrapped = wrapped
  wrap_each (m ∷ ms) wrapped = wrap_each ms (m wrapped)

  -- The loop of NewRegistry, which goes from the last middleware to the first.
  unfoldable pub wrap : List (Middleware H) → H → H
  unfolding wrap_each
  wrap ms h = wrap_each (reverse ms) h

  abbrev pub keys : Map H → List Str
  keys [] = []
  keys ((name, h) ∷ m) = name ∷ keys m

  abbrev pub finish : RegistryBuilder H → List BuildError → Built H
  finish b (e ∷ es) = failed e
  finish b [] = built (record {
    handlers = map_values (wrap b.middleware) b.handlers;
    names = sort_strings (keys b.handlers);
    middleware = b.middleware;
  })

  -- NewRegistry
  unfoldable pub new_registry : List (RegistryOption H) → Built H
  new_registry opts =
      finish (apply_options opts new_builder) (apply_options opts new_builder).errors

  -- Has and Names
  unfoldable pub has : HandlerRegistry H → Str → Bool
  has r name = elim (lookup name r.handlers) [ some h ↦ true | none ↦ false ]

  unfoldable pub names : HandlerRegistry H → List Str
  names r = r.names

-- composite.Handlers: the entries of later bundles replace those of earlier ones.
module _ {ℓ} {H : Type ℓ} where
  unfoldable pub put_all : Map H → Map H → Map H
  put_all [] result = result
  put_all ((name, h) ∷ m) result = put_all m (insert name h result)

  unfoldable pub put_bundles : List (Map H) → Map H → Map H
  put_bundles [] result = result
  put_bundles (m ∷ ms) result = put_bundles ms (put_all m result)

-- What the host reads from a context: the function name, if the context is a HostContext, the
-- plugin's name, and the mark that private addresses are allowed.
pub record Context : Type 0 where
  pub function : Option Str
  pub plugin : Option Str
  pub allow_private : Option Bool

-- HostContextFrom: a HostContext is passed on with the name that it has.
unfoldable pub host_context_from : Context → Str → Context
host_context_from ctx name = elim ctx.function [
  | some inner ↦ ctx
  | none ↦ record ctx { function = some name }
]

-- A handler; `R` is its result, with the states that it passes through.
abbrev pub ByteHandler {ℓ} : Type ℓ → Type ℓ
ByteHandler R = Context → Str → R

-- Invoke; `respond` makes an error response the result.
abbrev pub call {ℓ} :
    {R : Type ℓ} → (ErrorResponse → R) → Context → Str → Str → Option (ByteHandler R) → R
call respond ctx name payload none = respond (new_not_found_error name)
call respond ctx name payload (some h) = h (host_context_from ctx name) payload

unfoldable pub invoke {ℓ} :
    {R : Type ℓ} → (ErrorResponse → R) → HandlerRegistry (ByteHandler R) → Context → Str → Str → R
invoke respond r ctx name payload = call respond ctx name payload (lookup name r.handlers)

-- NewJSONHandler; the JSON coding is a parameter, and its errors are texts.
abbrev pub marshaled {ℓ} : {R : Type ℓ} → (ErrorResponse → R) → (Str → R) → Str ⊎ Str → R
marshaled respond send (inl e) =
    respond (new_internal_error (codes "failed to marshal response: " ++ e))
marshaled respond send (inr bytes) = send bytes

unfoldable pub json_handler {ℓ κ} :
    {R : Type ℓ} {Req Resp : Type κ}
    → (ErrorResponse → R)
    → (Str → R)
    → (Str → Str ⊎ Req)
    → (Resp → Str ⊎ Str)
    → (Context → Req → Resp)
    → ByteHandler R
json_handler respond send unmarshal marshal fn ctx payload = elim (unmarshal payload) [
  | inl e ↦ respond (new_validation_error (codes "failed to unmarshal request: " ++ e))
  | inr req ↦ marshaled respond send (marshal (fn ctx req))
]
