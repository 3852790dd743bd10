-- ===== src/Plugin/Repository/Confined.antt =====
-- Where Store and Delete change the disk.
use mathlib.Core.List.{append_assoc}
use mathlib.Core.Path.{subst}
use reglet_hostlib.Base.{
  ◌≡◌, refl, ◌≢◌, ap, sym, ◌∙◌, ◌⊎◌, inl, inr, true, List, [], ◌∷◌, ◌++◌, arith, Bool-cases,
}
use reglet_hostlib.Base.Text.{Str, codes, text_eq_iff, has_prefix, has_prefix_append}
use reglet_hostlib.Policy.Filepath.{join_parts}
use reglet_hostlib.Plugin.Repository.{within}
use reglet_hostlib.Plugin.Repository.Paths.{IsDirectory, join_parts-lead}
use reglet_hostlib.Plugin.Repository.Files.{file_at}

has_prefix_sound : (s p : Str) → has_prefix s p ≡ true → (t : Str) × (s ≡ p ++ t)
unfolding has_prefix
has_prefix_sound s [] h = (s, refl)
has_prefix_sound [] (c ∷ p) h = absurd (cc h)
has_prefix_sound (d ∷ s) (c ∷ p) h = elim (Bool-cases (has_prefix s p)) [
  | inl e ↦ let (t, whole) = has_prefix_sound s p e in (t, ground (arith, whole))
  | inr e ↦ absurd (ground arith)
]

-- The path is the directory, or a path in it.
abbrev IsIn : Str → Str → Type 0
IsIn root path = (path ≡ root) ⊎ ((t : Str) × (path ≡ root ++ b'/' ∷ t))

within_sound : (root path : Str) → within root path ≡ true → IsIn root path
within_sound root path h = elim (Bool-cases (has_prefix path (root ++ b'/' ∷ []))) [
  | inl e ↦
      let (t, whole) = has_prefix_sound path (root ++ b'/' ∷ []) e in
      inr (t, whole ∙ append_assoc root (b'/' ∷ []) t)
  | inr e ↦ inl ((text_eq_iff path root).0 (ground arith))
]

within_append : (root t : Str) → within root (root ++ b'/' ∷ t) ≡ true
within_append root t =
    let e : has_prefix (root ++ b'/' ∷ t) (root ++ b'/' ∷ []) ≡ true =
      rw (sym (append_assoc root (b'/' ∷ []) t)) (has_prefix_append (root ++ b'/' ∷ []) t) in
    rw e refl

within_complete : (root path : Str) → IsIn root path → within root path ≡ true
within_complete root path (inl e) = ground (arith, text_eq_iff path root)
within_complete root path (inr (t, e)) = rw e (within_append root t)

IsIn-trans : (root path file : Str) → IsIn root path → IsIn path file → IsIn root file
IsIn-trans root path file (inl e) (inl f) = inl (f ∙ e)
IsIn-trans root path file (inl e) (inr (t, f)) = inr (t, f ∙ ap (λ p. p ++ b'/' ∷ t) e)
IsIn-trans root path file (inr (t, e)) (inl f) = inr (t, f ∙ e)
IsIn-trans root path file (inr (t, e)) (inr (u, f)) =
    inr (t ++ b'/' ∷ u, f ∙ ap (λ p. p ++ b'/' ∷ u) e ∙ append_assoc root (b'/' ∷ t) (b'/' ∷ u))

pub within_trans :
    (root path file : Str)
    → within root path ≡ true
    → within path file ≡ true
    → within root file ≡ true
within_trans root path file p f =
    within_complete root file
      (IsIn-trans root path file (within_sound root path p) (within_sound path file f))

cons-ne-slash : (r t : Str) → codes "/" ≢ b'/' ∷ (r ++ b'/' ∷ t)
cons-ne-slash [] t = λ e. cc e
cons-ne-slash (c ∷ r) t = λ e. cc e

IsIn-ne-slash :
    (parts : List Str) (path : Str)
    → b'/' ∷ join_parts parts ≢ codes "/"
    → IsIn (b'/' ∷ join_parts parts) path
    → path ≢ codes "/"
IsIn-ne-slash parts path n (inl e) s = n (sym e ∙ s)
IsIn-ne-slash parts path n (inr (t, e)) s = cons-ne-slash (join_parts parts) t (sym s ∙ e)

file_at-append :
    (parts : List Str) (x : Str)
    → b'/' ∷ join_parts parts ≢ codes "/"
    → file_at parts x ≡ (b'/' ∷ join_parts parts) ++ b'/' ∷ x
unfolding join_parts
file_at-append [] x n = absurd (n refl)
file_at-append (p ∷ ps) x n = ap (λ r. b'/' ∷ r) (sym (join_parts-lead p ps x))

pub file_at-path :
    {path : Str} (d : IsDirectory path) (x : Str)
    → path ≢ codes "/"
    → file_at d.parts x ≡ path ++ b'/' ∷ x
file_at-path {path} d x n =
    file_at-append d.parts x (λ e. n (d.whole ∙ e)) ∙ ap (λ p. p ++ b'/' ∷ x) (sym d.whole)

-- A file of a directory stands in it, and in every directory that this one is in.
pub within-file_at :
    {path : Str} (d : IsDirectory path) (x : Str)
    → path ≢ codes "/"
    → within path (file_at d.parts x) ≡ true
within-file_at {path} d x n = rw (file_at-path d x n) (within_append path x)

pub within-ne-slash :
    {root path : Str}
    → IsDirectory root
    → root ≢ codes "/"
    → within root path ≡ true
    → path ≢ codes "/"
within-ne-slash {root} {path} d n h =
    IsIn-ne-slash d.parts path (λ e. n (d.whole ∙ e))
      (subst (λ r. IsIn r path) d.whole (within_sound root path h))
