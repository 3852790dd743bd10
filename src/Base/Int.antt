-- ===== src/Base/Int.antt =====
-- Go's `int` on a 64-bit machine: an integer, the wrap-around of a result, and strconv.Atoi.
use Prim.Native.Nat.{ℕ, zero, suc, ◌+◌, ◌-◌, ◌*◌, ◌/◌, ◌%◌, ◌^◌, ◌≤◌}
use mathlib.Core.Path.{◌≡◌, refl}
use mathlib.Core.Logic.{◌↔◌}
use mathlib.Core.Bool.{Bool, true, false, ◌&&◌}
use mathlib.Core.List.{[], ◌∷◌, ◌++◌}
use native.Mathlib.Omega.{arith}
use reglet_hostlib.Base.Tests.{ltb, leb, ◌==◌, if◌then◌else◌}
use reglet_hostlib.Base.Text.{Str, codes}

-- `negsuc n` is -(n + 1).
pub data ℤ : Type 0 where
  pos : ℕ → ℤ
  negsuc : ℕ → ℤ

abbrev pub pos_part : ℤ → ℕ
pos_part (pos n) = n
pos_part (negsuc n) = 0

abbrev pub neg_part : ℤ → ℕ
neg_part (pos n) = 0
neg_part (negsuc n) = suc n

infix 50 ◌≤ℤ◌
abbrev pub ◌≤ℤ◌ : ℤ → ℤ → Type 0
a ≤ℤ b = pos_part a + neg_part b ≤ pos_part b + neg_part a

abbrev pub leb_ℤ : ℤ → ℤ → Bool
leb_ℤ a b = leb (pos_part a + neg_part b) (pos_part b + neg_part a)

abbrev pub ltb_ℤ : ℤ → ℤ → Bool
ltb_ℤ a b = ltb (pos_part a + neg_part b) (pos_part b + neg_part a)

abbrev pub int_mod : ℕ
int_mod = 2 ^ 64

abbrev pub int_half : ℕ
int_half = 2 ^ 63

-- The integer that a 64-bit pattern stands for.
abbrev pub to_signed : ℕ → ℤ
to_signed n = if ltb n int_half then pos n else negsuc (int_mod - 1 - n)

-- time.Duration(ms) * time.Millisecond, where ms is positive
abbrev pub milliseconds : ℤ → ℤ
milliseconds ms = to_signed (pos_part ms * 10 ^ 6 % int_mod)

abbrev pub is_digit : ℕ → Bool
is_digit c = leb b'0' c && leb c b'9'

pub data Digits : Type 0 where
  value : ℕ → Digits
  syntax_error : Digits
  range_error : Digits

-- The loop of strconv.ParseUint in base 10.
unfoldable pub digits : ℕ → Str → Digits
digits acc [] = value acc
digits acc (c ∷ s) =
    let n = acc * 10 + (c - 48) in
    let rest = digits n s in
    if is_digit c then (if leb int_mod n then range_error else rest) else syntax_error

-- The value that strconv.Atoi returns beside its error, by the sign that was read.
abbrev pub atoi_pos : Digits → ℤ × Bool
atoi_pos (value n) = if leb int_half n then (pos (int_half - 1), false) else (pos n, true)
atoi_pos syntax_error = (pos 0, false)
atoi_pos range_error = (pos (int_half - 1), false)

abbrev pub atoi_neg : Digits → ℤ × Bool
atoi_neg (value zero) = (pos 0, true)
atoi_neg (value (suc n)) =
    if ltb int_half (suc n) then (negsuc (int_half - 1), false) else (negsuc n, true)
atoi_neg syntax_error = (pos 0, false)
atoi_neg range_error = (negsuc (int_half - 1), false)

abbrev unsigned : Str → Digits
unsigned [] = syntax_error
unsigned (c ∷ s) = digits 0 (c ∷ s)

-- strconv.Atoi: the number, and whether the error is nil.
unfoldable pub atoi : Str → ℤ × Bool
unfolding digits
atoi [] = (pos 0, false)
atoi (c ∷ s) =
    if c == b'-'
    then atoi_neg (unsigned s)
    else if c == b'+'
    then atoi_pos (unsigned s)
    else atoi_pos (unsigned (c ∷ s))

-- fmt.Sprintf with "%d". A number of 64 bits has at most 20 digits.
unfoldable pub decimal_digits : ℕ → ℕ → Str
decimal_digits zero n = []
decimal_digits (suc fuel) n =
    let rest = decimal_digits fuel (n / 10) in
    if ltb n 10 then (48 + n) ∷ [] else rest ++ (48 + n % 10) ∷ []

abbrev pub show_int : ℤ → Str
show_int (pos n) = decimal_digits 20 n
show_int (negsuc n) = b'-' ∷ decimal_digits 20 (suc n)

pub leb_ℤ_iff : (a b : ℤ) → (leb_ℤ a b ≡ true) ↔ (a ≤ℤ b)
leb_ℤ_iff a b = ground arith

atoi_tests :
    ((atoi (codes "8080")).0 ≡ pos 8080)
    × ((atoi (codes "-12")).0 ≡ negsuc 11)
    × ((atoi (codes "12x")).1 ≡ false)
    × ((atoi (codes "99999999999999999999999x")).0 ≡ pos (2 ^ 63 - 1))
unfolding atoi
atoi_tests = (refl, refl, refl, refl)
