-- ===== src/Policy/Ports.antt =====
-- What the port strings of a rule permit: `compilePorts` and the range test of `EvaluateNetwork`.
use reglet_hostlib.Base.{
  ◌≡◌, refl, ◌↔◌, ◌≢◌, inl, inr, true, false, List, [], ◌∷◌, ◌++◌, ◌||◌, arith, any, any-append,
  or_iff, Any, Bool-cases,
}
use reglet_hostlib.Base.Text.{
  Str, codes, text_eq, text_eq_iff, contains_byte, Lacks, split, split_two_sound,
  split_two_complete, contains_byte-append, trim_space,
}
use reglet_hostlib.Base.Int.{ℤ, pos, ◌≤ℤ◌, atoi}
use reglet_hostlib.Policy.{PortRange, compile_port, compile_ports, dashed_range}
use reglet_hostlib.Policy.Engine.{port_match}

-- The number that a port string stands for: blanks around it are dropped, and a string that is no
-- number stands for 0.
abbrev pub port_number : Str → ℤ
port_number s = (atoi (trim_space s)).0

-- A port string permits a port: "*" all of 0 to 65535, "lo-hi" with just the one dash a range, and a
-- string without a dash the one number. A string with more dashes permits none.
pub data Permits (spec : Str) (port : ℤ) : Type 0 where
  every : spec ≡ codes "*" → pos 0 ≤ℤ port → port ≤ℤ pos 65535 → Permits spec port
  range :
      (lo hi : Str)
      → spec ≡ lo ++ b'-' ∷ hi
      → Lacks b'-' lo
      → Lacks b'-' hi
      → port_number lo ≤ℤ port
      → port ≤ℤ port_number hi
      → Permits spec port
  single :
      spec ≢ codes "*"
      → Lacks b'-' spec
      → port_number spec ≤ℤ port
      → port ≤ℤ port_number spec
      → Permits spec port

port_match-append :
    (port : ℤ) (xs ys : List PortRange)
    → port_match port (xs ++ ys) ≡ (port_match port xs || port_match port ys)
unfolding port_match
port_match-append port xs ys = any-append _ xs ys

dashed_sound :
    (port : ℤ) (spec : Str)
    → port_match port (dashed_range (split b'-' spec)) ≡ true
    → Permits spec port
unfolding port_match any
dashed_sound port spec h = go (split b'-' spec) refl h
  where
    go :
        (parts : List Str)
        → split b'-' spec ≡ parts
        → port_match port (dashed_range parts) ≡ true
        → Permits spec port
    go [] e h = cc
    go (lo ∷ []) e h = cc
    go (lo ∷ hi ∷ []) e h =
        let (same, l, r) = split_two_sound b'-' spec lo hi e in
        range lo hi same l r (ground arith) (ground arith)
    go (lo ∷ hi ∷ x ∷ xs) e h = cc

compile_port_sound :
    (port : ℤ) (spec : Str) → port_match port (compile_port spec) ≡ true → Permits spec port
unfolding compile_port
compile_port_sound port spec h = elim (Bool-cases (text_eq spec (codes "*"))) [
  | inl e ↦ unfold port_match any in every ((text_eq_iff spec _).0 e) (ground arith) (ground arith)
  | inr e ↦ elim (Bool-cases (contains_byte b'-' spec)) [
    | inl d ↦ dashed_sound port spec (ground arith)
    | inr d ↦
        unfold port_match any in
        single (λ q. ground (arith, text_eq_iff spec (codes "*"))) d (ground arith) (ground arith)
  ]
]

range-ne-star : (lo hi : Str) → text_eq (lo ++ b'-' ∷ hi) (codes "*") ≡ false
unfolding text_eq
range-ne-star [] hi = refl
range-ne-star (c ∷ []) hi = ground arith
range-ne-star (c ∷ d ∷ lo) hi = ground arith

compile_port_complete :
    (port : ℤ) (spec : Str) → Permits spec port → port_match port (compile_port spec) ≡ true
unfolding compile_port port_match any
compile_port_complete port spec (every e l u) = ground (arith, text_eq_iff spec (codes "*"))
compile_port_complete port spec (range lo hi e l r a b) =
    rw (e, range-ne-star lo hi, contains_byte-append b'-' lo hi, split_two_complete b'-' lo hi l r)
      (ground arith)
compile_port_complete port spec (single n d a b) = ground (arith, text_eq_iff spec (codes "*"))

-- The compiled ports of a rule match a port exactly if one of the port strings permits it: "*" any
-- port of 0 to 65535, "a-b", with no other dash, the ports between the two numbers, and a string
-- without a dash that is not "*" the one port it reads as; so a string with two dashes or more
-- permits none.
pub compile_ports_iff :
    (port : ℤ) (specs : List Str)
    → (port_match port (compile_ports specs) ≡ true) ↔ Any (λ spec. Permits spec port) specs
unfolding compile_ports
compile_ports_iff port [] = unfold port_match any in (λ h. cc, λ h. absurd h)
compile_ports_iff port (spec ∷ specs) =
    rw (port_match-append port (compile_port spec) (compile_ports specs)) (
      or_iff _ _ (compile_port_sound port spec, compile_port_complete port spec)
        (compile_ports_iff port specs))
