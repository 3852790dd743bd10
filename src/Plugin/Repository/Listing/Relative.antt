-- ===== src/Plugin/Repository/Listing/Relative.antt =====
-- The path of a reference, relative to the directory of the cache, is the reference again.
use mathlib.Core.List.{reverse_aux-eq}
use reglet_hostlib.Base.{
  ℕ, ◌≡◌, refl, ◌≢◌, ap, sym, ◌∙◌, inl, inr, true, some, List, [], ◌∷◌, ◌++◌, ◌==◌, arith, All,
  Bool-cases,
}
use reglet_hostlib.Base.Text.{
  Str, text_eq, text_eq_refl, List-cases, Lacks, split, cons_head, split-append, split-Lacks,
  split-ne-nil, cut_last-append,
}
use reglet_hostlib.Policy.Filepath.{
  is_abs, clean, clean_step, clean_from, clean_parts, join_parts, or_dot,
}
use reglet_hostlib.Policy.Paths.{IsDown, is_abs-append}
use reglet_hostlib.Plugin.Repository.Paths.{lead, clean_from-down, join_parts-lead}
use reglet_hostlib.Plugin.Repository.Listing.{strip, dir, rel}

split-append_all : (b : ℕ) (s t : Str) → split b (s ++ b ∷ t) ≡ split b s ++ split b t
unfolding split
split-append_all b [] t = ground arith
split-append_all b (c ∷ s) t = elim (List-cases (split b s)) [
  | inl n ↦ absurd (split-ne-nil b s n)
  | inr (p, ps, e) ↦ ground (arith, split-append_all b s t, e)
]

join_parts-cons_head :
    (c : ℕ) (parts : List Str) → parts ≢ [] → join_parts (cons_head c parts) ≡ c ∷ join_parts parts
unfolding join_parts
join_parts-cons_head c [] n = absurd (n refl)
join_parts-cons_head c (p ∷ []) n = refl
join_parts-cons_head c (p ∷ q ∷ ps) n = refl

join_parts-nil_cons :
    (parts : List Str) → parts ≢ [] → join_parts ([] ∷ parts) ≡ b'/' ∷ join_parts parts
unfolding join_parts
join_parts-nil_cons [] n = absurd (n refl)
join_parts-nil_cons (p ∷ ps) n = refl

join_parts-split : (s : Str) → join_parts (split b'/' s) ≡ s
unfolding split join_parts
join_parts-split [] = refl
join_parts-split (c ∷ s) = elim (Bool-cases (c == b'/')) [
  | inl e ↦ rw e (
      join_parts-nil_cons (split b'/' s) (split-ne-nil b'/' s)
      ∙ ground (arith, join_parts-split s, e))
  | inr e ↦ rw e (
      join_parts-cons_head c (split b'/' s) (split-ne-nil b'/' s)
      ∙ ap (λ r. c ∷ r) (join_parts-split s))
]

split-join_parts :
    (p : Str) (ps : List Str) → All IsDown (p ∷ ps) → split b'/' (join_parts (p ∷ ps)) ≡ p ∷ ps
unfolding join_parts
split-join_parts p [] (d, h) = split-Lacks b'/' p d.0.1
split-join_parts p (q ∷ ps) (d, h) =
    split-append b'/' p (join_parts (q ∷ ps)) d.0.1 ∙ ap (λ r. p ∷ r) (split-join_parts q ps h)

-- Clean leaves a path of its own making as it is.
pub clean_parts-join_parts :
    (parts : List Str) → All IsDown parts → clean_parts (b'/' ∷ join_parts parts) ≡ parts
unfolding clean_parts is_abs split clean_from clean_step text_eq join_parts
clean_parts-join_parts [] h = refl
clean_parts-join_parts (p ∷ ps) h = rw (split-join_parts p ps h) (clean_from-down [] (p ∷ ps) h)

clean_from-append :
    (stack parts more : List Str)
    → All IsDown more
    → clean_from true stack (parts ++ more) ≡ clean_from true stack parts ++ more
unfolding clean_from
clean_from-append stack [] more h = clean_from-down stack more h ∙ reverse_aux-eq stack more
clean_from-append stack (p ∷ parts) more h =
    clean_from-append (clean_step true stack p) parts more h

clean_from-slash :
    (stack parts : List Str)
    → clean_from true stack (parts ++ [] ∷ []) ≡ clean_from true stack parts
unfolding clean_from clean_step text_eq
clean_from-slash stack [] = refl
clean_from-slash stack (p ∷ parts) = clean_from-slash (clean_step true stack p) parts

-- What is joined to a rooted path stands behind it, if it leads nowhere but down.
pub clean_parts-append :
    (root s : Str)
    → is_abs root ≡ true
    → All IsDown (split b'/' s)
    → clean_parts (root ++ b'/' ∷ s) ≡ clean_parts root ++ split b'/' s
unfolding clean_parts
clean_parts-append root s rooted h =
    rw (is_abs-append root (b'/' ∷ s) rooted, rooted, split-append_all b'/' root s)
      (clean_from-append [] (split b'/' root) (split b'/' s) h)

clean-slash : (path : Str) → is_abs path ≡ true → clean (path ++ b'/' ∷ []) ≡ clean path
unfolding clean clean_parts split
clean-slash path rooted =
    rw (is_abs-append path (b'/' ∷ []) rooted, rooted, split-append_all b'/' path [])
      (ap (λ parts. b'/' ∷ join_parts parts) (clean_from-slash [] (split b'/' path)))

pub clean-own :
    (parts : List Str)
    → All IsDown parts
    → clean (b'/' ∷ join_parts parts) ≡ b'/' ∷ join_parts parts
unfolding clean is_abs
clean-own parts h = ap (λ ps. b'/' ∷ join_parts ps) (clean_parts-join_parts parts h)

strip-append : (from more : List Str) → strip from (from ++ more) ≡ ([], more)
strip-append [] more = refl
strip-append (p ∷ from) more = rw (text_eq_refl p) (strip-append from more)

or_dot-split : (s : Str) → All IsDown (split b'/' s) → or_dot s ≡ s
unfolding split
or_dot-split [] h = absurd (h.0.0.0 refl)
or_dot-split (c ∷ s) h = refl

-- The relative path of what was joined is what was joined.
pub rel-join :
    (root path s : Str)
    → is_abs root ≡ true
    → is_abs path ≡ true
    → All IsDown (split b'/' s)
    → clean_parts path ≡ clean_parts root ++ split b'/' s
    → rel root path ≡ some s
unfolding rel
rel-join root path s rooted abs h e =
    rw (rooted, abs, e, strip-append (clean_parts root) (split b'/' s), join_parts-split s)
      (ap some (or_dot-split s h))

-- The directory of a file.
pub dir-file_at :
    (parts : List Str) (x : Str)
    → All IsDown parts
    → Lacks b'/' x
    → dir (b'/' ∷ (lead parts ++ x)) ≡ b'/' ∷ join_parts parts
unfolding dir
dir-file_at [] x h l =
    rw (cut_last-append b'/' [] x l)
      (unfold clean clean_parts clean_from clean_step split is_abs text_eq join_parts in refl)
dir-file_at (p ∷ ps) x h l =
    let path = b'/' ∷ join_parts (p ∷ ps) in
    let whole : b'/' ∷ (lead (p ∷ ps) ++ x) ≡ path ++ b'/' ∷ x =
      ap (λ r. b'/' ∷ r) (sym (join_parts-lead p ps x)) in
    let rooted : is_abs path ≡ true = unfold is_abs in refl in
    rw (whole, dir, cut_last-append b'/' path x l, clean-slash path rooted) (clean-own (p ∷ ps) h)
