-- ===== src/Base/Text/Cuts.antt =====
-- More laws of the cuts: at the last separator, and at a substring.
use Prim.Native.Nat.{ℕ}
use mathlib.Core.Path.{◌≡◌, refl}
use mathlib.Core.Logic.{◌≢◌, inl, inr}
use mathlib.Core.Bool.{true, false}
use mathlib.Core.List.{[], ◌∷◌, ◌++◌}
use mathlib.Core.Option.{none, some}
use native.Mathlib.Omega.{arith}
use reglet_hostlib.Base.Tests.{Option-cases}
use reglet_hostlib.Base.Text.Defs.{Str, has_prefix, contains_byte, cut_at, cut_last}
use reglet_hostlib.Base.Text.Laws.{Lacks}

pub has_prefix-Lacks :
    (b : ℕ) (s p : Str) → Lacks b s → contains_byte b p ≡ true → has_prefix s p ≡ false
unfolding has_prefix contains_byte
has_prefix-Lacks b s [] h k = cc
has_prefix-Lacks b [] (c ∷ p) h k = refl
has_prefix-Lacks b (d ∷ s) (c ∷ p) h k = ground (arith, has_prefix-Lacks b s p)

pub cut_at-Lacks :
    (b : ℕ) (sub s : Str) → Lacks b s → contains_byte b sub ≡ true → cut_at sub s ≡ none
unfolding cut_at contains_byte
cut_at-Lacks b sub [] h k = rw (has_prefix-Lacks b [] sub h k) refl
cut_at-Lacks b sub (c ∷ s) h k =
    let rest : cut_at sub s ≡ none = cut_at-Lacks b sub s (ground arith) k in
    rw (has_prefix-Lacks b (c ∷ s) sub h k, rest) refl

pub cut_last-Lacks : (b : ℕ) (s : Str) → Lacks b s → cut_last b s ≡ none
unfolding cut_last contains_byte
cut_last-Lacks b [] h = refl
cut_last-Lacks b (c ∷ s) h = ground (arith, cut_last-Lacks b s)

pub cut_last-append : (b : ℕ) (s t : Str) → Lacks b t → cut_last b (s ++ b ∷ t) ≡ some (s, t)
unfolding cut_last contains_byte
cut_last-append b [] t h = ground (arith, cut_last-Lacks b t h)
cut_last-append b (c ∷ s) t h = ground (arith, cut_last-append b s t h)

pub Lacks-append : (b c : ℕ) (s t : Str) → Lacks b s → Lacks b t → b ≢ c → Lacks b (s ++ c ∷ t)
unfolding contains_byte
Lacks-append b c [] t p q n = ground arith
Lacks-append b c (d ∷ s) t p q n = ground (arith, Lacks-append b c s t)

pub cut_last-none : (b : ℕ) (s : Str) → cut_last b s ≡ none → Lacks b s
unfolding cut_last contains_byte
cut_last-none b [] h = refl
cut_last-none b (c ∷ s) h = elim (Option-cases (cut_last b s)) [
  | inl e ↦ ground (arith, cut_last-none b s e)
  | inr ((p, q), e) ↦ ground arith
]

pub cut_last_sound :
    (b : ℕ) (s p q : Str) → cut_last b s ≡ some (p, q) → (s ≡ p ++ b ∷ q) × Lacks b q
unfolding cut_last contains_byte
cut_last_sound b [] p q h = cc
cut_last_sound b (c ∷ s) p q h = elim (Option-cases (cut_last b s)) [
  | inl e ↦ ground (arith, cut_last-none b s e)
  | inr ((p', q'), e) ↦ ground (arith, cut_last_sound b s p' q' e)
]

pub Lacks-suffix : (c b : ℕ) (p q : Str) → Lacks c (p ++ b ∷ q) → Lacks c q
unfolding contains_byte
Lacks-suffix c b [] q h = ground arith
Lacks-suffix c b (d ∷ p) q h = ground (arith, Lacks-suffix c b p q)
