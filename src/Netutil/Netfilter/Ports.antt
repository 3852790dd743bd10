-- ===== src/Netutil/Netfilter/Ports.antt =====
-- Which ports `checkPortRestrictions` lets through, and the number that a port text stands for.
use reglet_hostlib.Base.{
  ℕ, ◌+◌, ◌-◌, ◌*◌, ◌%◌, ◌≡◌, refl, ap, ◌↔◌, ◌⊎◌, inl, inr, Bool, true, false, not, ◌&&◌, none,
  some, List, [], ◌∷◌, arith, any, any_iff, Any, Bool-cases, if◌then◌else◌, All,
}
use reglet_hostlib.Base.Text.{Str}
use reglet_hostlib.Base.Int.{ℤ, pos, ◌≤ℤ◌, ltb_ℤ, int_mod, is_digit}
use reglet_hostlib.Netutil.Netfilter.{
  NetfilterConfig, port_not_allowed, port_blocked, int_eq, is_empty, check_port_restrictions,
  parse_port,
}

int_eq_iff : (a b : ℤ) → (int_eq a b ≡ true) ↔ (a ≡ b)
int_eq_iff a b = ground arith

-- The port passes: it is listed where ports are listed and the address names one, and is not blocked.
pub record IsOpen (cfg : NetfilterConfig) (port : ℤ) : Type 0 where
  pub listed : (cfg.allowed_ports ≡ []) ⊎ (port ≤ℤ pos 0) ⊎ Any (λ p. p ≡ port) cfg.allowed_ports
  pub not_blocked : ¬ Any (λ p. p ≡ port) cfg.blocked_ports

port_listed_iff :
    (port : ℤ) (ports : List ℤ)
    → (any (λ p. int_eq p port) ports ≡ true) ↔ Any (λ p. p ≡ port) ports
port_listed_iff port ports = any_iff _ _ (λ p. int_eq_iff p port) ports

port_tests :
    (no_list positive listed blocked : Bool)
    → (if not no_list && positive && not listed
        then some port_not_allowed
        else if blocked
        then some port_blocked
        else none)
      ≡ none
    → ((no_list ≡ true) ⊎ (positive ≡ false) ⊎ (listed ≡ true)) × (blocked ≡ false)
port_tests no_list positive listed blocked h = ground arith

is_empty-eq-true : (ports : List ℤ) → is_empty ports ≡ true → ports ≡ []
is_empty-eq-true [] h = refl
is_empty-eq-true (p ∷ ps) h = cc

pub check_port-IsOpen :
    (port : ℤ) (cfg : NetfilterConfig) → check_port_restrictions port cfg ≡ none → IsOpen cfg port
unfolding check_port_restrictions
check_port-IsOpen port cfg h =
    let (listed, unblocked) = port_tests _ _ _ _ h in
    record {
      listed = elim listed [
        | inl e ↦ inl (is_empty-eq-true cfg.allowed_ports e)
        | inr (inl e) ↦ inr (inl (ground arith))
        | inr (inr e) ↦ inr (inr ((port_listed_iff port cfg.allowed_ports).0 e))
      ];
      not_blocked = λ b. cc (unblocked, (port_listed_iff port cfg.blocked_ports).1 b);
    }

port_tests_none :
    (no_list positive listed blocked : Bool)
    → ((no_list ≡ true) ⊎ (positive ≡ false) ⊎ (listed ≡ true))
    → blocked ≡ false
    → (if not no_list && positive && not listed
        then some port_not_allowed
        else if blocked
        then some port_blocked
        else none)
      ≡ none
port_tests_none no_list positive listed blocked h k = ground arith

unlisted :
    (port : ℤ) (ports : List ℤ)
    → ¬ Any (λ p. p ≡ port) ports
    → any (λ p. int_eq p port) ports ≡ false
unlisted port ports h = elim (Bool-cases (any (λ p. int_eq p port) ports)) [
  | inl e ↦ absurd (h ((port_listed_iff port ports).0 e))
  | inr e ↦ e
]

pub IsOpen-check_port :
    (port : ℤ) (cfg : NetfilterConfig) → IsOpen cfg port → check_port_restrictions port cfg ≡ none
unfolding check_port_restrictions
IsOpen-check_port port cfg h =
    port_tests_none _ _ _ _ listed (unlisted port cfg.blocked_ports h.not_blocked)
  where
    listed :
        (is_empty cfg.allowed_ports ≡ true)
        ⊎ (ltb_ℤ (pos 0) port ≡ false)
        ⊎ (any (λ p. int_eq p port) cfg.allowed_ports ≡ true)
    listed = elim h.listed [
      | inl e ↦ inl (ap is_empty e)
      | inr (inl e) ↦ inr (inl (ground arith))
      | inr (inr e) ↦ inr (inr ((port_listed_iff port cfg.allowed_ports).1 e))
    ]

-- The number that decimal digits stand for, of any size.
abbrev pub decimal : ℕ → Str → ℕ
decimal n [] = n
decimal n (c ∷ s) = decimal (n * 10 + (c - 48)) s

-- The loop that reads the port of an address gives, for a text of digits, behind any number that
-- was read before, the decimal number modulo 2^64.
pub parse_port_digits :
    (n : ℕ) (s : Str)
    → All (λ c. is_digit c ≡ true) s
    → parse_port (n % int_mod) s ≡ some (decimal n s % int_mod)
unfolding parse_port
parse_port_digits n [] h = refl
parse_port_digits n (c ∷ s) h =
    let step : (n % int_mod * 10 + (c - 48)) % int_mod ≡ (n * 10 + (c - 48)) % int_mod =
      omega arith in
    rw (h.0, step) (parse_port_digits (n * 10 + (c - 48)) s h.1)
