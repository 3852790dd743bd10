-- ===== src/Base/Text/Laws.antt =====
-- Laws of the string functions.
use Prim.Native.Nat.{ℕ}
use mathlib.Core.Path.{◌≡◌, refl, ap, ◌∙◌, subst₂}
use mathlib.Core.Logic.{◌≢◌, ◌↔◌, ◌⊎◌, inl, inr}
use mathlib.Core.Bool.{true, false}
use mathlib.Core.List.{List, [], ◌∷◌, ◌++◌}
use mathlib.Core.Option.{none, some}
use native.Mathlib.Omega.{arith}
use reglet_hostlib.Base.Tests.{◌==◌, Bool-cases, Option-cases}
use reglet_hostlib.Base.Lists.{Any}
use reglet_hostlib.Base.Text.Defs.{Str, text_eq, one_of, has_prefix, contains_byte, cut, split}

pub List-cases {ℓ} : {A : Type ℓ} (l : List A) → (l ≡ []) ⊎ ((x : A) × (xs : List A) × (l ≡ x ∷ xs))
List-cases [] = inl refl
List-cases (x ∷ xs) = inr (x, xs, refl)

pub text_eq_iff : (s t : Str) → (text_eq s t ≡ true) ↔ (s ≡ t)
unfolding text_eq
text_eq_iff [] [] = ground arith
text_eq_iff [] (y ∷ ys) = ground arith
text_eq_iff (x ∷ xs) [] = ground arith
text_eq_iff (x ∷ xs) (y ∷ ys) = ground (arith, text_eq_iff xs ys)

pub text_eq_refl : (s : Str) → text_eq s s ≡ true
text_eq_refl s = (text_eq_iff s s).1 refl

-- Membership in a list of literals.
pub one_of_iff : (ts : List Str) (s : Str) → (one_of ts s ≡ true) ↔ Any (λ t. t ≡ s) ts
unfolding one_of
one_of_iff [] s = ground arith
one_of_iff (t ∷ ts) s = ground (arith, one_of_iff ts s, text_eq_iff t s)

pub has_prefix_append : (p s : Str) → has_prefix (p ++ s) p ≡ true
unfolding has_prefix
has_prefix_append [] s = refl
has_prefix_append (c ∷ p) s = ground (arith, has_prefix_append p s)

-- No byte of the string is `b`.
abbrev pub Lacks : ℕ → Str → Type 0
Lacks b s = contains_byte b s ≡ false

pub cut-append : (b : ℕ) (s t : Str) → Lacks b s → cut b (s ++ b ∷ t) ≡ some (s, t)
unfolding cut contains_byte
cut-append b [] t h = ground arith
cut-append b (c ∷ s) t h = ground (arith, cut-append b s t)

pub cut-Lacks : (b : ℕ) (s : Str) → Lacks b s → cut b s ≡ none
unfolding cut contains_byte
cut-Lacks b [] h = refl
cut-Lacks b (c ∷ s) h = ground (arith, cut-Lacks b s)

-- What a cut returns is the string, cut at its first `b`.
pub cut_sound : (b : ℕ) (s p q : Str) → cut b s ≡ some (p, q) → (s ≡ p ++ b ∷ q) × Lacks b p
unfolding cut contains_byte
cut_sound b [] p q h = cc
cut_sound b (c ∷ s) p q h = elim (Option-cases (cut b s)) [
  | inl e ↦ ground arith
  | inr ((p', q'), e) ↦ ground (arith, cut_sound b s p' q' e)
]

pub split-Lacks : (b : ℕ) (s : Str) → Lacks b s → split b s ≡ s ∷ []
unfolding split contains_byte
split-Lacks b [] h = refl
split-Lacks b (c ∷ s) h = ground (arith, split-Lacks b s)

pub split-append : (b : ℕ) (s t : Str) → Lacks b s → split b (s ++ b ∷ t) ≡ s ∷ split b t
unfolding split contains_byte
split-append b [] t h = ground arith
split-append b (c ∷ s) t h = ground (arith, split-append b s t)

pub split-ne-nil : (b : ℕ) (s : Str) → split b s ≢ []
unfolding split
split-ne-nil b [] h = cc
split-ne-nil b (c ∷ s) h = ground (arith, split-ne-nil b s)

-- The first part of a split, and what the others come from.
data SplitHead (b : ℕ) (s p : Str) (ps : List Str) : Type 0 where
  whole : s ≡ p → ps ≡ [] → SplitHead b s p ps
  more : (t : Str) → s ≡ p ++ b ∷ t → split b t ≡ ps → SplitHead b s p ps

SplitHead-cons :
    (b c : ℕ) (s p : Str) (ps : List Str) → SplitHead b s p ps → SplitHead b (c ∷ s) (c ∷ p) ps
SplitHead-cons b c s p ps (whole e n) = whole (ap (λ r. c ∷ r) e) n
SplitHead-cons b c s p ps (more t e r) = more t (ap (λ r. c ∷ r) e) r

split_head :
    (b : ℕ) (s p : Str) (ps : List Str) → split b s ≡ p ∷ ps → Lacks b p × SplitHead b s p ps
unfolding split contains_byte
split_head b [] p ps h = (ground arith, whole (ground arith) (ground arith))
split_head b (c ∷ s) p ps h = elim (Bool-cases (c == b)) [
  | inl e ↦ (ground arith, more s (ground arith) (ground arith))
  | inr e ↦ elim (List-cases (split b s)) [
    | inl n ↦ absurd (split-ne-nil b s n)
    | inr (q, qs, n) ↦
        let (lacks, rest) = split_head b s q qs n in
        let same : (c ∷ q ≡ p) × (qs ≡ ps) = ground arith in
        subst₂ (λ x xs. Lacks b x × SplitHead b (c ∷ s) x xs) same.0 same.1
          (ground arith, SplitHead-cons b c s q qs rest)
  ]
]

-- A split in one part: the string itself, with no separator.
pub split_one_sound : (b : ℕ) (s p : Str) → split b s ≡ p ∷ [] → (s ≡ p) × Lacks b s
split_one_sound b s p h = one (split_head b s p [] h)
  where
    one : Lacks b p × SplitHead b s p [] → (s ≡ p) × Lacks b s
    one (l, whole e n) = (e, rw e l)
    one (l, more t e r) = absurd (split-ne-nil b t r)

-- A split in two parts: the string was cut at its only separator.
pub split_two_sound :
    (b : ℕ) (s p q : Str) → split b s ≡ p ∷ q ∷ [] → (s ≡ p ++ b ∷ q) × Lacks b p × Lacks b q
split_two_sound b s p q h = two (split_head b s p (q ∷ []) h)
  where
    two : Lacks b p × SplitHead b s p (q ∷ []) → (s ≡ p ++ b ∷ q) × Lacks b p × Lacks b q
    two (l, whole e n) = cc
    two (l, more t e r) =
        let (same, lacks) = split_one_sound b t q r in
        (e ∙ ap (λ x. p ++ b ∷ x) same, l, rw (← same) lacks)

pub split_two_complete :
    (b : ℕ) (p q : Str) → Lacks b p → Lacks b q → split b (p ++ b ∷ q) ≡ p ∷ q ∷ []
split_two_complete b p q hp hq = split-append b p q hp ∙ ap (λ r. p ∷ r) (split-Lacks b q hq)

pub contains_byte-append : (b : ℕ) (s t : Str) → contains_byte b (s ++ b ∷ t) ≡ true
unfolding contains_byte
contains_byte-append b [] t = ground arith
contains_byte-append b (c ∷ s) t = ground (arith, contains_byte-append b s t)
