-- ===== src/Base/Map.antt =====
-- Go maps with string keys, as association lists. An entry is replaced in place, so no key comes
-- to stand twice. The order of iteration, which Go leaves open, is that of the list.
use reglet_hostlib.Base.Tests.{if◌then◌else◌}
use reglet_hostlib.Base.Lists.{All}
use reglet_hostlib.Base.Text.{Str, text_eq, text_eq_iff, text_eq_refl}
use mathlib.Core.Path.{◌≡◌, refl}
use mathlib.Core.Logic.{◌≢◌}
use mathlib.Core.Bool.{Bool, true, false}
use mathlib.Core.Option.{Option, none, some}
use mathlib.Core.List.{List, [], ◌∷◌}
use native.Mathlib.Omega.{arith}

abbrev pub Map {ℓ} : Type ℓ → Type ℓ
Map V = List (Str × V)

module _ {ℓ} {V : Type ℓ} where
  -- v, ok := m[k]
  unfoldable pub lookup : Str → Map V → Option V
  unfolding text_eq
  lookup k [] = none
  lookup k ((j, v) ∷ m) = if text_eq j k then some v else lookup k m

  -- m[k] = v
  unfoldable pub insert : Str → V → Map V → Map V
  unfolding text_eq
  insert k v [] = (k, v) ∷ []
  insert k v ((j, w) ∷ m) = if text_eq j k then (k, v) ∷ m else (j, w) ∷ insert k v m

  pub lookup-insert :
      (k j : Str) (v : V) (m : Map V)
      → lookup j (insert k v m) ≡ (if text_eq k j then some v else lookup j m)
  unfolding lookup insert
  lookup-insert k j v [] = refl
  lookup-insert k j v ((i, w) ∷ m) =
      ground (arith, text_eq_iff k j, text_eq_iff i k, text_eq_iff i j, lookup-insert k j v m)

  pub lookup-insert_self : (k : Str) (v : V) (m : Map V) → lookup k (insert k v m) ≡ some v
  lookup-insert_self k v m = rw (lookup-insert k k v m, text_eq_refl k)

  pub lookup-insert_ne :
      (k j : Str) (v : V) (m : Map V) → k ≢ j → lookup j (insert k v m) ≡ lookup j m
  lookup-insert_ne k j v m h = rw lookup-insert (ground (arith, text_eq_iff k j))

-- What holds of every entry goes on to hold after a write of one that has it.
module _ {ℓ} {V : Type ℓ} (P : Str × V → Type 0) (k : Str) (v : V) (p : P (k, v)) where
  All-insert_cons :
      (b : Bool) (j : Str) (w : V) (m rest : Map V)
      → P (j, w)
      → All P m
      → All P rest
      → All P (if b then (k, v) ∷ m else (j, w) ∷ rest)
  All-insert_cons true j w m rest q h r = (p, h)
  All-insert_cons false j w m rest q h r = (q, r)

  pub All-insert : (m : Map V) → All P m → All P (insert k v m)
  unfolding insert
  All-insert [] h = (p, tt)
  All-insert ((j, w) ∷ m) (q, h) =
      All-insert_cons (text_eq j k) j w m (insert k v m) q h (All-insert m h)

-- A map over the values.
unfoldable pub map_values {ℓ κ} : {V : Type ℓ} {W : Type κ} → (V → W) → Map V → Map W
map_values f [] = []
map_values f ((k, v) ∷ m) = (k, f v) ∷ map_values f m
