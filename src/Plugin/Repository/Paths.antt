-- ===== src/Plugin/Repository/Paths.antt =====
-- Where FSPluginRepository keeps the files of a plugin.
use mathlib.Core.List.{reverse_aux, append_assoc}
use reglet_hostlib.Base.{
  ◌≡◌, refl, ap, sym, ◌∙◌, true, List, [], ◌∷◌, ◌++◌, arith, All, Bool-cases, inl, inr,
}
use reglet_hostlib.Base.Text.{
  Str, codes, text_eq, text_eq_iff, Lacks, split, split-append, split-Lacks,
}
use reglet_hostlib.Policy.Filepath.{
  is_abs, clean_step, clean_from, clean_parts, join_parts, clean, join,
}
use reglet_hostlib.Policy.Paths.{IsDown, clean_rooted, is_abs-clean_rooted, is_abs-append}
use mathlib.Core.Path.{subst}
use reglet_hostlib.Plugin.Values.{PluginReference, show_reference}
use reglet_hostlib.Plugin.Repository.{file_join, within, plugin_path, ok}

-- Every component with a slash after it.
abbrev pub lead : List Str → Str
lead [] = []
lead (p ∷ ps) = p ++ b'/' ∷ lead ps

pub split-lead :
    (parts : List Str) (x : Str)
    → All IsDown parts
    → Lacks b'/' x
    → split b'/' (lead parts ++ x) ≡ parts ++ x ∷ []
split-lead [] x h l = split-Lacks b'/' x l
split-lead (p ∷ ps) x (d, h) l =
    rw
      (
        append_assoc p (b'/' ∷ lead ps) x,
        split-append b'/' p (lead ps ++ x) d.0.1,
        split-lead ps x h l,
      )
      refl

pub clean_step-down : (stack : List Str) (p : Str) → IsDown p → clean_step true stack p ≡ p ∷ stack
unfolding clean_step
clean_step-down stack p d =
    ground (arith, text_eq_iff p [], text_eq_iff p (codes "."), text_eq_iff p (codes ".."))

pub clean_from-down :
    (stack parts : List Str)
    → All IsDown parts
    → clean_from true stack parts ≡ reverse_aux stack parts
unfolding clean_from
clean_from-down stack [] h = refl
clean_from-down stack (p ∷ ps) (d, h) =
    rw (clean_step-down stack p d) (clean_from-down (p ∷ stack) ps h)

All-snoc : (parts : List Str) (x : Str) → All IsDown parts → IsDown x → All IsDown (parts ++ x ∷ [])
All-snoc [] x h d = (d, tt)
All-snoc (p ∷ ps) x (e, h) d = (e, All-snoc ps x h d)

join_parts-snoc : (parts : List Str) (x : Str) → join_parts (parts ++ x ∷ []) ≡ lead parts ++ x
unfolding join_parts
join_parts-snoc [] x = refl
join_parts-snoc (p ∷ []) x = sym (append_assoc p (b'/' ∷ []) x)
join_parts-snoc (p ∷ q ∷ ps) x =
    rw (append_assoc p (b'/' ∷ lead (q ∷ ps)) x)
      (ap (λ r. p ++ b'/' ∷ r) (join_parts-snoc (q ∷ ps) x))

module _ (parts : List Str) (x : Str) (h : All IsDown parts) (d : IsDown x) where
  clean_parts-lead : clean_parts (b'/' ∷ (lead parts ++ x)) ≡ parts ++ x ∷ []
  unfolding clean_parts is_abs split clean_from clean_step text_eq
  clean_parts-lead =
      rw (split-lead parts x h d.0.1) (clean_from-down [] (parts ++ x ∷ []) (All-snoc parts x h d))

  -- Clean changes nothing of a file's path.
  pub clean-lead : clean (b'/' ∷ (lead parts ++ x)) ≡ b'/' ∷ (lead parts ++ x)
  unfolding clean is_abs
  clean-lead = rw (clean_parts-lead, join_parts-snoc parts x) refl

clean_double : (x : Str) → Lacks b'/' x → clean (b'/' ∷ b'/' ∷ x) ≡ clean (b'/' ∷ x)
unfolding clean clean_parts is_abs split clean_from clean_step text_eq
clean_double x l = rw (split-Lacks b'/' x l) refl

pub join_parts-lead :
    (p : Str) (ps : List Str) (x : Str) → join_parts (p ∷ ps) ++ b'/' ∷ x ≡ lead (p ∷ ps) ++ x
unfolding join_parts
join_parts-lead p [] x = sym (append_assoc p (b'/' ∷ []) x)
join_parts-lead p (q ∷ ps) x =
    append_assoc p (b'/' ∷ join_parts (q ∷ ps)) (b'/' ∷ x)
    ∙ ap (λ r. p ++ b'/' ∷ r) (join_parts-lead q ps x)
    ∙ sym (append_assoc p (b'/' ∷ lead (q ∷ ps)) x)

-- A file of a directory that Clean has made.
pub join-lead :
    (parts : List Str) (x : Str)
    → All IsDown parts
    → IsDown x
    → join (b'/' ∷ join_parts parts) x ≡ b'/' ∷ (lead parts ++ x)
unfolding join join_parts
join-lead [] x h d = clean_double x d.0.1 ∙ clean-lead [] x h d
join-lead (p ∷ ps) x h d =
    ap (λ r. clean (b'/' ∷ r)) (join_parts-lead p ps x) ∙ clean-lead (p ∷ ps) x h d

-- The directory that holds the plugin: contained, and written without its slash at the end.
pub record IsDirectory (path : Str) : Type 0 where
  pub parts : List Str
  pub whole : path ≡ b'/' ∷ join_parts parts
  pub down : All IsDown parts

pub IsDirectory-clean : (path : Str) → is_abs path ≡ true → IsDirectory (clean path)
IsDirectory-clean path rooted =
    let (parts, whole, down) = clean_rooted path rooted in
    record { parts = parts; whole = whole; down = down }

is_abs-file_join : (root s : Str) → is_abs root ≡ true → is_abs (file_join root s) ≡ true
unfolding join
is_abs-file_join root [] rooted = is_abs-clean_rooted root rooted
is_abs-file_join root (c ∷ s) rooted =
    is_abs-clean_rooted (root ++ b'/' ∷ c ∷ s) (is_abs-append root (b'/' ∷ c ∷ s) rooted)

pub plugin_path-IsDirectory :
    (root : Str) (ref : PluginReference) {path : Str}
    → is_abs root ≡ true
    → plugin_path root ref ≡ ok path
    → IsDirectory path × (within (clean root) path ≡ true)
unfolding plugin_path
plugin_path-IsDirectory root ref {path} rooted h =
    let target = clean (file_join root (show_reference ref)) in
    elim (Bool-cases (is_abs (show_reference ref))) [
      | inl e ↦ absurd (ground arith)
      | inr e ↦ elim (Bool-cases (within (clean root) target)) [
        | inl inside ↦
            let same : target ≡ path = ground arith in
            (
              subst IsDirectory same (
                  IsDirectory-clean (file_join root (show_reference ref))
                    (is_abs-file_join root (show_reference ref) rooted)),
              subst (λ p. within (clean root) p ≡ true) same inside,
            )
        | inr outside ↦ absurd (ground arith)
      ]
    ]
