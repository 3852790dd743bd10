-- ===== src/Policy/Paths.antt =====
-- The path that `EvaluateFileSystem` matches against: what filepath.Clean leaves of a request.
use mathlib.Core.List.{reverse, reverse_aux}
use mathlib.Core.Path.{subst}
use reglet_hostlib.Base.{
  ℕ, ◌≡◌, refl, ◌≢◌, inl, inr, true, false, none, some, List, [], ◌∷◌, ◌++◌, arith, ◌==◌, All,
  Bool-cases, if◌then◌else◌,
}
use reglet_hostlib.Base.Text.{
  Str, codes, text_eq, text_eq_iff, contains_byte, Lacks, split, cons_head,
}
use reglet_hostlib.Policy.Filepath.{
  is_abs, clean_step, clean_from, clean_parts, join_parts, or_dot, clean, join,
}
use reglet_hostlib.Policy.Engine.{World, resolve_path}

-- A component: not empty, and with no slash in it.
abbrev pub IsPart : Str → Type 0
IsPart part = (part ≢ []) × Lacks b'/' part

-- A component that leads nowhere but down.
abbrev pub IsDown : Str → Type 0
IsDown part = IsPart part × (part ≢ codes ".") × (part ≢ codes "..")

All-cons_head :
    (c : ℕ) (ps : List Str)
    → (c == b'/') ≡ false
    → All (Lacks b'/') ps
    → All (Lacks b'/') (cons_head c ps)
unfolding contains_byte
All-cons_head c [] h a = (ground arith, tt)
All-cons_head c (p ∷ ps) h a = (ground (arith, a.0), a.1)

Lacks-nil : Lacks b'/' []
unfolding contains_byte
Lacks-nil = refl

All-split : (s : Str) → All (Lacks b'/') (split b'/' s)
unfolding split
All-split [] = (Lacks-nil, tt)
All-split (c ∷ s) = elim (Bool-cases (c == b'/')) [
  | inl e ↦ rw e (Lacks-nil, All-split s)
  | inr e ↦ rw e (All-cons_head c (split b'/' s) e (All-split s))
]

module _ (P : Str → Type 0) where
  All-reverse_aux : (xs ys : List Str) → All P xs → All P ys → All P (reverse_aux xs ys)
  All-reverse_aux [] ys h k = k
  All-reverse_aux (x ∷ xs) ys (p, h) k = All-reverse_aux xs (x ∷ ys) h (p, k)

  All-reverse : (xs : List Str) → All P xs → All P (reverse xs)
  All-reverse xs h = All-reverse_aux xs [] h tt

clean_step-IsDown :
    (stack : List Str) (part : Str)
    → All IsDown stack
    → Lacks b'/' part
    → All IsDown (clean_step true stack part)
unfolding clean_step
clean_step-IsDown [] part h l =
    ground (arith, text_eq_iff part [], text_eq_iff part (codes "."), text_eq_iff part (codes ".."))
clean_step-IsDown (top ∷ stack) part h l = ground (
  arith,
  text_eq_iff part [],
  text_eq_iff part (codes "."),
  text_eq_iff part (codes ".."),
  text_eq_iff top (codes ".."),
)

clean_from-IsDown :
    (stack parts : List Str)
    → All IsDown stack
    → All (Lacks b'/') parts
    → All IsDown (clean_from true stack parts)
unfolding clean_from
clean_from-IsDown stack [] h l = All-reverse IsDown stack h
clean_from-IsDown stack (part ∷ parts) h (l, ls) =
    clean_from-IsDown (clean_step true stack part) parts (clean_step-IsDown stack part h l) ls

-- The components that Clean leaves of a rooted path lead nowhere but down.
pub clean_parts-IsDown : (path : Str) → is_abs path ≡ true → All IsDown (clean_parts path)
unfolding clean_parts
clean_parts-IsDown path rooted =
    rw rooted (clean_from-IsDown [] (split b'/' path) tt (All-split path))

pub clean_rooted :
    (path : Str)
    → is_abs path ≡ true
    → (parts : List Str) × (clean path ≡ b'/' ∷ join_parts parts) × All IsDown parts
unfolding clean
clean_rooted path rooted = (clean_parts path, rw rooted, clean_parts-IsDown path rooted)

dotdot-IsPart : IsPart (codes "..")
unfolding contains_byte
dotdot-IsPart = (cc, refl)

clean_step-IsPart :
    (stack : List Str) (part : Str)
    → All IsPart stack
    → Lacks b'/' part
    → All IsPart (clean_step false stack part)
unfolding clean_step
clean_step-IsPart [] part h l = ground (arith, text_eq_iff part [], dotdot-IsPart)
clean_step-IsPart (top ∷ stack) part h l = ground (arith, text_eq_iff part [], dotdot-IsPart)

clean_from-IsPart :
    (stack parts : List Str)
    → All IsPart stack
    → All (Lacks b'/') parts
    → All IsPart (clean_from false stack parts)
unfolding clean_from
clean_from-IsPart stack [] h l = All-reverse IsPart stack h
clean_from-IsPart stack (part ∷ parts) h (l, ls) =
    clean_from-IsPart (clean_step false stack part) parts (clean_step-IsPart stack part h l) ls

-- A relative path stays relative.
is_abs-join_parts :
    (parts : List Str) → All IsPart parts → is_abs (or_dot (join_parts parts)) ≡ false
unfolding is_abs join_parts contains_byte
is_abs-join_parts [] h = refl
is_abs-join_parts ([] ∷ ps) h = absurd (h.0.0 refl)
is_abs-join_parts ((c ∷ p) ∷ []) h = ground arith
is_abs-join_parts ((c ∷ p) ∷ q ∷ ps) h = ground arith

is_abs-clean_relative : (path : Str) → is_abs path ≡ false → is_abs (clean path) ≡ false
unfolding clean clean_parts
is_abs-clean_relative path rel =
    rw rel (is_abs-join_parts _ (clean_from-IsPart [] (split b'/' path) tt (All-split path)))

pub is_abs-clean_rooted : (path : Str) → is_abs path ≡ true → is_abs (clean path) ≡ true
is_abs-clean_rooted path rooted = rw (clean_rooted path rooted).1 (unfold is_abs in refl)

pub is_abs-append : (s t : Str) → is_abs s ≡ true → is_abs (s ++ t) ≡ true
unfolding is_abs
is_abs-append [] t h = cc
is_abs-append (c ∷ s) t h = h

-- A rooted path whose components lead nowhere but down.
abbrev pub IsContained : Str → Type 0
IsContained path = (parts : List Str) × (path ≡ b'/' ∷ join_parts parts) × All IsDown parts

pub join-IsContained : (dir path : Str) → is_abs dir ≡ true → IsContained (join dir path)
unfolding join
join-IsContained dir path rooted =
    clean_rooted (dir ++ b'/' ∷ path) (is_abs-append dir (b'/' ∷ path) rooted)

module _ (w : World) (links : w.config.resolve_symlinks ≡ false) where
  resolve_path_rooted : (path : Str) → is_abs path ≡ true → resolve_path w path ≡ some (clean path)
  unfolding resolve_path
  resolve_path_rooted path rooted = rw (is_abs-clean_rooted path rooted, links)

  resolve_path_relative :
      (path : Str)
      → is_abs path ≡ false
      → resolve_path w path
        ≡ (if text_eq w.config.cwd [] then none else some (join w.config.cwd (clean path)))
  unfolding resolve_path
  resolve_path_relative path rel = rw (is_abs-clean_relative path rel, links)

  relative-IsContained :
      (path : Str) {resolved : Str}
      → is_abs path ≡ false
      → (w.config.cwd ≢ [] → is_abs w.config.cwd ≡ true)
      → resolve_path w path ≡ some resolved
      → IsContained resolved
  relative-IsContained path rel rooted_cwd h = elim (Bool-cases (text_eq w.config.cwd [])) [
    | inl no_cwd ↦ cc (resolve_path_relative path rel, no_cwd, h)
    | inr cwd ↦
        let rooted = rooted_cwd (λ e. ground (arith, text_eq_iff w.config.cwd [])) in
        subst IsContained (ground (arith, resolve_path_relative path rel))
          (join-IsContained w.config.cwd (clean path) rooted)
  ]

-- With symbolic links left alone and a working directory that is empty or rooted, every path that
-- file rules are matched against is rooted, and no component of it is empty, ".", ".." or holds a
-- slash.
pub resolve_path-IsContained :
    (w : World) (path resolved : Str)
    → w.config.resolve_symlinks ≡ false
    → (w.config.cwd ≢ [] → is_abs w.config.cwd ≡ true)
    → resolve_path w path ≡ some resolved
    → IsContained resolved
resolve_path-IsContained w path resolved links rooted_cwd h = elim (Bool-cases (is_abs path)) [
  | inl rooted ↦
      subst IsContained (cc (resolve_path_rooted w links path rooted, h)) (clean_rooted path rooted)
  | inr rel ↦ relative-IsContained w links path rel rooted_cwd h
]
