-- ===== src/Netutil/SecureDialer/Parsing.antt =====
-- The texts that the dialer validates are read back as the host that it means.
use mathlib.Core.Path.{subst}
use reglet_hostlib.Base.{
  ◌==◌, ℕ, suc, ◌+◌, ◌≤◌, ◌<◌, ◌≡◌, refl, ap, ◌∙◌, ◌⊎◌, inl, inr, true, false, none, some, [], ◌∷◌,
  ◌++◌, arith, ltb, Bool-cases,
}
use reglet_hostlib.Base.Text.{
  Str, contains_byte, contains_byte-append, count_byte, cut, cut_last, cut_sound, cut-append, Lacks,
  Lacks-suffix, Lacks-append, cut_last_sound, cut_last-append,
}
use reglet_hostlib.Base.Int.{ℤ, pos}
use reglet_hostlib.Netutil.Address.{
  SplitError, missing_port, too_many_colons, parts, refused, split_host_port, split_plain,
  split_bracketed,
}
use reglet_hostlib.Netutil.Netfilter.{host_port, parse_address}
use reglet_hostlib.Netutil.SecureDialer.{join_host_port}

-- A host or a port without brackets.
abbrev pub NoBrackets : Str → Type 0
NoBrackets s = Lacks b'[' s × Lacks b']' s

abbrev pub IsPort : Str → Type 0
IsPort port = Lacks b':' port × NoBrackets port

plain_tests :
    (s p q host port : Str)
    → split_plain s (some (p, q)) ≡ parts host port
    → Lacks b'[' s × Lacks b']' s × (q ≡ port) × (p ≡ host)
plain_tests s p q host port h = ground arith

plain-IsPort :
    (s host port : Str) (o : _)
    → cut_last b':' s ≡ o
    → split_plain s o ≡ parts host port
    → IsPort port
plain-IsPort s host port none e h = cc h
plain-IsPort s host port (some (p, q)) e h =
    let (opening, closing, same, same_host) = plain_tests s p q host port h in
    let (whole, lacks) = cut_last_sound b':' s p q e in
    subst IsPort same (
      lacks,
      (
        Lacks-suffix b'[' b':' p q (subst (Lacks b'[') whole opening),
        Lacks-suffix b']' b':' p q (subst (Lacks b']') whole closing),
      ),
    )

bracketed_tests :
    (s p : Str) (c : ℕ) (q host port : Str)
    → split_bracketed s (some (p, c ∷ q)) ≡ parts host port
    → (c ≡ b':') × Lacks b':' q × Lacks b'[' s × Lacks b']' q × (q ≡ port)
bracketed_tests s p c q host port h = ground arith

bracketed-IsPort :
    (s host port : Str) (o : _)
    → cut b']' s ≡ o
    → split_bracketed s o ≡ parts host port
    → IsPort port
bracketed-IsPort s host port none e h = cc h
bracketed-IsPort s host port (some (p, [])) e h = cc h
bracketed-IsPort s host port (some (p, c ∷ q)) e h =
    let (colon, lacks, opening, closing, same) = bracketed_tests s p c q host port h in
    let (whole, before) = cut_sound b']' s p (c ∷ q) e in
    let rest : Lacks b'[' (c ∷ q) =
      Lacks-suffix b'[' b']' p (c ∷ q) (subst (Lacks b'[') whole opening) in
    subst IsPort same (lacks, (unfold contains_byte in ground arith, closing))

-- The port that an address is split into has no colon and no bracket.
pub split-IsPort : (addr host port : Str) → split_host_port addr ≡ parts host port → IsPort port
unfolding split_host_port
split-IsPort [] host port h = cc h
split-IsPort (c ∷ s) host port h = elim (Bool-cases (contains_byte b':' (c ∷ s))) [
  | inr e ↦ absurd (ground arith)
  | inl e ↦ elim (Bool-cases (c == b'[')) [
    | inl b ↦ bracketed-IsPort s host port _ refl (ground arith)
    | inr b ↦ plain-IsPort (c ∷ s) host port _ refl (ground arith)
  ]
]

contains_byte-prefix :
    (b : ℕ) (s t : Str) → contains_byte b s ≡ true → contains_byte b (s ++ t) ≡ true
unfolding contains_byte
contains_byte-prefix b [] t h = cc h
contains_byte-prefix b (c ∷ s) t h = ground (arith, contains_byte-prefix b s t)

split_bracketed_join :
    (host port : Str)
    → NoBrackets host
    → IsPort port
    → split_bracketed (host ++ b']' ∷ b':' ∷ port) (cut b']' (host ++ b']' ∷ b':' ∷ port))
      ≡ parts host port
split_bracketed_join host port (opening, closing) (colon, (opening', closing')) =
    let rest : Lacks b'[' (b':' ∷ port) = unfold contains_byte in ground arith in
    rw
      (
        cut-append b']' host (b':' ∷ port) closing,
        colon,
        Lacks-append b'[' b']' host (b':' ∷ port) opening rest (omega arith),
        closing',
      )
      refl

split_plain_join :
    (host port : Str)
    → Lacks b':' host
    → NoBrackets host
    → IsPort port
    → split_plain (host ++ b':' ∷ port) (cut_last b':' (host ++ b':' ∷ port)) ≡ parts host port
split_plain_join host port plain (opening, closing) (colon, (opening', closing')) =
    rw
      (
        cut_last-append b':' host port colon,
        plain,
        Lacks-append b'[' b':' host port opening opening' (omega arith),
        Lacks-append b']' b':' host port closing closing' (omega arith),
      )
      refl

-- A text that begins with no "[" and has a colon is split at its last colon.
split_unbracketed :
    (t : Str)
    → Lacks b'[' t
    → contains_byte b':' t ≡ true
    → split_host_port t ≡ split_plain t (cut_last b':' t)
unfolding split_host_port contains_byte
split_unbracketed [] h k = cc
split_unbracketed (c ∷ t) h k = let other : (c == b'[') ≡ false = ground arith in rw (k, other) refl

split_bracket :
    (s : Str)
    → contains_byte b':' s ≡ true
    → split_host_port (b'[' ∷ s) ≡ split_bracketed s (cut b']' s)
unfolding split_host_port contains_byte
split_bracket s k = rw k refl

joined_bracketed :
    (host port : Str)
    → contains_byte b':' host ≡ true
    → join_host_port host port ≡ b'[' ∷ (host ++ b']' ∷ b':' ∷ port)
unfolding join_host_port
joined_bracketed host port e = rw (join_host_port, e) refl

joined_plain : (host port : Str) → Lacks b':' host → join_host_port host port ≡ host ++ b':' ∷ port
unfolding join_host_port
joined_plain host port e = rw (join_host_port, e) refl

-- What is joined of a host and a port is split into them.
split_join :
    (host port : Str)
    → NoBrackets host
    → IsPort port
    → split_host_port (join_host_port host port) ≡ parts host port
split_join host port h p = elim (Bool-cases (contains_byte b':' host)) [
  | inl e ↦ rw (joined_bracketed host port e) (
      split_bracket (host ++ b']' ∷ b':' ∷ port)
        (contains_byte-prefix b':' host (b']' ∷ b':' ∷ port) e)
      ∙ split_bracketed_join host port h p)
  | inr e ↦ rw (joined_plain host port e) (
      split_unbracketed (host ++ b':' ∷ port)
        (Lacks-append b'[' b':' host port h.0 p.1.0 (omega arith))
        (contains_byte-append b':' host port)
      ∙ split_plain_join host port e h p)
]

join_has_colon : (host port : Str) → contains_byte b':' (join_host_port host port) ≡ true
join_has_colon host port = elim (Bool-cases (contains_byte b':' host)) [
  | inl e ↦
      rw (joined_bracketed host port e)
        (unfold contains_byte in contains_byte-prefix b':' host (b']' ∷ b':' ∷ port) e)
  | inr e ↦ rw (joined_plain host port e) (contains_byte-append b':' host port)
]

-- If the joined text parses at all, it parses to the host.
pub parse_join :
    (host port h : Str) (n : ℤ)
    → NoBrackets host
    → IsPort port
    → parse_address (join_host_port host port) ≡ host_port h n
    → host ≡ h
unfolding parse_address
parse_join host port h n brackets p parses =
    let split = split_join host port brackets p in
    let colon = join_has_colon host port in ground (arith, split, colon, parses)

-- A text of an address: no bracket, and no colon or more than one.
abbrev pub IsAddressText : Str → Type 0
IsAddressText t = NoBrackets t × (Lacks b':' t ⊎ (2 ≤ count_byte b':' t))

count-append :
    (b : ℕ) (p q : Str) → count_byte b (p ++ b ∷ q) ≡ count_byte b p + suc (count_byte b q)
unfolding count_byte
count-append b [] q = ground arith
count-append b (c ∷ p) q = ground (arith, count-append b p q)

count-Lacks : (b : ℕ) (q : Str) → Lacks b q → count_byte b q ≡ 0
unfolding count_byte contains_byte
count-Lacks b [] h = refl
count-Lacks b (c ∷ q) h = ground (arith, count-Lacks b q)

contains-count : (b : ℕ) (p : Str) → 0 < count_byte b p → contains_byte b p ≡ true
unfolding count_byte contains_byte
contains-count b [] h = absurd (omega arith)
contains-count b (c ∷ p) h = ground (arith, contains-count b p)

plain_refused :
    (t : Str) (o : _)
    → cut_last b':' t ≡ o
    → 2 ≤ count_byte b':' t
    → (e : SplitError) × (split_plain t o ≡ refused e)
plain_refused t none e h = (missing_port, refl)
plain_refused t (some (p, q)) e h =
    let (whole, lacks) = cut_last_sound b':' t p q e in
    let counted = ap (count_byte b':') whole in
    let colon : contains_byte b':' p ≡ true =
      contains-count b':' p
        (omega (arith, counted, count-append b':' p q, count-Lacks b':' q lacks, h)) in
    (too_many_colons, rw colon refl)

-- Such a text parses to itself, with no port.
pub parse_bare : (t : Str) → IsAddressText t → parse_address t ≡ host_port t (pos 0)
unfolding parse_address
parse_bare t (brackets, inl plain) = rw (parse_address, plain) refl
parse_bare t (brackets, inr colons) =
    let colon = contains-count b':' t (omega (arith, colons)) in
    let (e, same) = plain_refused t _ refl colons in
    let split = split_unbracketed t brackets.0 colon ∙ same in
    let many : ltb 1 (count_byte b':' t) ≡ true = ground arith in
    rw (parse_address, colon, split, many) (ground arith)
