-- ===== src/Base/Text/Defs.antt =====
-- Go strings as sequences of bytes, and the functions of package strings that the code calls.
use Prim.Native.Nat.{ℕ, zero, suc, ◌-◌, pred}
use Prim.Native.Char.{code}
use Prim.Native.String.{String}
use mathlib.Core.Bool.{Bool, true, false, ◌&&◌, ◌||◌}
use mathlib.Core.List.{List, [], ◌∷◌, reverse}
use mathlib.Core.Option.{Option, none, some}
use reglet_hostlib.Base.Tests.{◌==◌, leb, if◌then◌else◌}
use reglet_hostlib.Base.Lists.{length, drop}

abbrev pub Str : Type 0
Str = List ℕ

-- The bytes of a literal; every literal of the source is ASCII.
abbrev pub codes : String → Str
codes String.[] = []
codes (String.◌∷◌ c s) = code c ∷ codes s

-- s == t
unfoldable pub text_eq : Str → Str → Bool
text_eq [] [] = true
text_eq (x ∷ xs) (y ∷ ys) = x == y && text_eq xs ys
text_eq [] (y ∷ ys) = false
text_eq (x ∷ xs) [] = false

-- slices.Contains(list, s)
unfoldable pub one_of : List Str → Str → Bool
unfolding text_eq
one_of [] s = false
one_of (t ∷ ts) s = text_eq t s || one_of ts s

-- strings.HasPrefix(s, prefix)
unfoldable pub has_prefix : Str → Str → Bool
has_prefix s [] = true
has_prefix [] (p ∷ ps) = false
has_prefix (c ∷ s) (p ∷ ps) = c == p && has_prefix s ps

-- strings.HasSuffix(s, suffix)
unfoldable pub has_suffix : Str → Str → Bool
unfolding text_eq
has_suffix s suffix =
    leb (length suffix) (length s) && text_eq (drop (length s - length suffix) s) suffix

-- strings.Contains(s, sub)
unfoldable pub contains : Str → Str → Bool
unfolding has_prefix
contains [] sub = has_prefix [] sub
contains (c ∷ s) sub = has_prefix (c ∷ s) sub || contains s sub

-- strings.Contains(s, sep) for a separator of one byte
unfoldable pub contains_byte : ℕ → Str → Bool
contains_byte b [] = false
contains_byte b (c ∷ s) = c == b || contains_byte b s

-- strings.Count(s, sep) for a separator of one byte
unfoldable pub count_byte : ℕ → Str → ℕ
count_byte b [] = 0
count_byte b (c ∷ s) = let n = count_byte b s in if c == b then suc n else n

abbrev pub grow : ℕ → Option (Str × Str) → Option (Str × Str)
grow c none = none
grow c (some (a, b)) = some (c ∷ a, b)

-- strings.Cut(s, sep), strings.SplitN(s, sep, 2): the parts before and after the first `b`
unfoldable pub cut : ℕ → Str → Option (Str × Str)
cut b [] = none
cut b (c ∷ s) = let rest = grow c (cut b s) in if c == b then some ([], s) else rest

abbrev pub or_else {ℓ} : {A : Type ℓ} → Option A → Option A → Option A
or_else none d = d
or_else (some a) d = some a

-- s[:i] and s[i+1:] for i = strings.LastIndex(s, sep) with a separator of one byte
unfoldable pub cut_last : ℕ → Str → Option (Str × Str)
cut_last b [] = none
cut_last b (c ∷ s) = or_else (grow c (cut_last b s)) (if c == b then some ([], s) else none)

abbrev pub cons_head : ℕ → List Str → List Str
cons_head c [] = (c ∷ []) ∷ []
cons_head c (p ∷ ps) = (c ∷ p) ∷ ps

-- strings.Split(s, sep) for a separator of one byte
unfoldable pub split : ℕ → Str → List Str
split b [] = [] ∷ []
split b (c ∷ s) = let rest = split b s in if c == b then [] ∷ rest else cons_head c rest

-- parts[len(parts)-1]; the default is never read, since `split` gives at least one part
unfoldable pub last_or : Str → List Str → Str
last_or d [] = d
last_or d (p ∷ ps) = last_or p ps

-- unicode.IsSpace on ASCII: \t \n \v \f \r and the blank
unfoldable pub is_space : ℕ → Bool
is_space c = c == 0x20 || leb 9 c && leb c 13

abbrev pub between : ℕ → ℕ → ℕ → Bool
between lo hi c = leb lo c && leb c hi

abbrev third_space : ℕ → ℕ → ℕ → Bool
third_space a b c =
    a == 0xe1 && b == 0x9a && c == 0x80
    || a == 0xe2 && b == 0x80 && (between 0x80 0x8a c || between 0xa8 0xa9 c || c == 0xaf)
    || a == 0xe2 && b == 0x81 && c == 0x9f
    || a == 0xe3 && b == 0x80 && c == 0x80

-- The length of the white space rune that the bytes begin with, 0 if there is none: the ASCII
-- ones, U+0085, U+00A0, U+1680, U+2000 to U+200A, U+2028, U+2029, U+202F, U+205F and U+3000.
unfoldable pub space_len : Str → ℕ
unfolding is_space
space_len [] = 0
space_len (a ∷ []) = if is_space a then 1 else 0
space_len (a ∷ b ∷ []) =
    if is_space a then 1 else if a == 0xc2 && (b == 0x85 || b == 0xa0) then 2 else 0
space_len (a ∷ b ∷ c ∷ s) =
    if is_space a
    then 1
    else if a == 0xc2 && (b == 0x85 || b == 0xa0)
    then 2
    else if third_space a b c
    then 3
    else 0

-- The same of the rune that a string ends with, read from its last byte on.
unfoldable pub space_len_back : Str → ℕ
unfolding is_space
space_len_back [] = 0
space_len_back (a ∷ []) = if is_space a then 1 else 0
space_len_back (b ∷ a ∷ []) =
    if is_space b then 1 else if a == 0xc2 && (b == 0x85 || b == 0xa0) then 2 else 0
space_len_back (c ∷ b ∷ a ∷ s) =
    if is_space c
    then 1
    else if b == 0xc2 && (c == 0x85 || c == 0xa0)
    then 2
    else if third_space a b c
    then 3
    else 0

-- Drops the runs of white space that `measure` sees; the number counts bytes still to drop.
unfoldable pub trim_run : (Str → ℕ) → ℕ → Str → Str
trim_run measure k [] = []
trim_run measure (suc k) (c ∷ s) = trim_run measure k s
trim_run measure zero (c ∷ s) =
    let rest = trim_run measure (pred (measure (c ∷ s))) s in
    if measure (c ∷ s) == 0 then c ∷ s else rest

-- strings.TrimSpace(s)
unfoldable pub trim_space : Str → Str
unfolding trim_run space_len space_len_back
trim_space s = reverse (trim_run space_len_back 0 (reverse (trim_run space_len 0 s)))

-- s[:i] and s[i:] for i = strings.Index(s, sub)
unfoldable pub cut_at : Str → Str → Option (Str × Str)
unfolding has_prefix
cut_at sub [] = if has_prefix [] sub then some ([], []) else none
cut_at sub (c ∷ s) =
    let rest = grow c (cut_at sub s) in if has_prefix (c ∷ s) sub then some ([], c ∷ s) else rest
