-- ===== src/Policy/Filepath.antt =====
-- The functions of package path/filepath, on Unix, that policy/policy.go calls: Clean, IsAbs, Join.
use reglet_hostlib.Base.{◌≡◌, refl, Bool, false, ◌||◌, List, [], ◌∷◌, ◌++◌, ◌==◌, if◌then◌else◌}
use reglet_hostlib.Base.Text.{Str, codes, text_eq, split}
use mathlib.Core.List.{reverse}

unfoldable pub is_abs : Str → Bool
is_abs [] = false
is_abs (c ∷ s) = c == b'/'

-- One component of a path; the stack has the last component written at its head.
abbrev pub up : Bool → List Str → List Str
up rooted [] = if rooted then [] else codes ".." ∷ []
up rooted (top ∷ stack) = if text_eq top (codes "..") then codes ".." ∷ top ∷ stack else stack

unfoldable pub clean_step : Bool → List Str → Str → List Str
unfolding text_eq
clean_step rooted stack part =
    if text_eq part [] || text_eq part (codes ".")
    then stack
    else if text_eq part (codes "..")
    then up rooted stack
    else part ∷ stack

unfoldable pub clean_from : Bool → List Str → List Str → List Str
unfolding clean_step
clean_from rooted stack [] = reverse stack
clean_from rooted stack (part ∷ parts) = clean_from rooted (clean_step rooted stack part) parts

-- The components of filepath.Clean(path).
unfoldable pub clean_parts : Str → List Str
unfolding clean_from is_abs split
clean_parts path = clean_from (is_abs path) [] (split b'/' path)

unfoldable pub join_parts : List Str → Str
join_parts [] = []
join_parts (p ∷ []) = p
join_parts (p ∷ q ∷ ps) = p ++ b'/' ∷ join_parts (q ∷ ps)

abbrev pub or_dot : Str → Str
or_dot [] = codes "."
or_dot (c ∷ s) = c ∷ s

-- filepath.Clean(path)
unfoldable pub clean : Str → Str
unfolding clean_parts join_parts is_abs
clean path =
    if is_abs path
    then b'/' ∷ join_parts (clean_parts path)
    else or_dot (join_parts (clean_parts path))

-- filepath.Join(dir, path) where neither is empty
unfoldable pub join : Str → Str → Str
unfolding clean
join dir path = clean (dir ++ b'/' ∷ path)

clean_tests :
    (clean (codes "/a/../../etc//./x/") ≡ codes "/etc/x")
    × (clean (codes "a/../../b") ≡ codes "../b")
    × (clean [] ≡ codes ".")
    × (clean (codes "/..") ≡ codes "/")
    × (join (codes "/work") (codes "../x") ≡ codes "/x")
unfolding clean join
clean_tests = (refl, refl, refl, refl, refl)
