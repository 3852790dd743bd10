-- ===== src/Netutil/Address.antt =====
-- What netutil/netfilter.go uses of package net: address classes, blocks of addresses, and
-- net.SplitHostPort. The parsers of addresses and the resolver are parameters.
use reglet_hostlib.Base.{
  ℕ, ◌/◌, Bool, false, ◌&&◌, ◌||◌, Option, none, some, List, [], ◌∷◌, ◌==◌, if◌then◌else◌,
}
use reglet_hostlib.Base.Text.{Str, contains_byte, cut, cut_last, text_eq}

-- net.IP by its bytes: `ip4` for what To4 reads, which takes in the IPv4-mapped addresses, and
-- `ip6` for the 16 bytes of any other address.
pub data Ip : Type 0 where
  ip4 : ℕ → ℕ → ℕ → ℕ → Ip
  ip6 : List ℕ → Ip

-- The 16 bytes of ::1 but for the last, and of :: .
abbrev zeros15 : List ℕ
zeros15 = 0 ∷ 0 ∷ 0 ∷ 0 ∷ 0 ∷ 0 ∷ 0 ∷ 0 ∷ 0 ∷ 0 ∷ 0 ∷ 0 ∷ 0 ∷ 0 ∷ 0 ∷ []

abbrev pub loopback6 : List ℕ
loopback6 = 0 ∷ 0 ∷ 0 ∷ 0 ∷ 0 ∷ 0 ∷ 0 ∷ 0 ∷ 0 ∷ 0 ∷ 0 ∷ 0 ∷ 0 ∷ 0 ∷ 0 ∷ 1 ∷ []

abbrev pub unspecified6 : List ℕ
unspecified6 = 0 ∷ zeros15

-- ip.IsLoopback()
unfoldable pub is_loopback : Ip → Bool
unfolding text_eq
is_loopback (ip4 a b c d) = a == 127
is_loopback (ip6 bs) = text_eq bs loopback6

abbrev first2 : (ℕ → ℕ → Bool) → List ℕ → Bool
first2 p (a ∷ b ∷ bs) = p a b
first2 p _ = false

-- ip.IsPrivate(): 10/8, 172.16/12, 192.168/16, and fc00::/7 (a & 0xfe == 0xfc)
unfoldable pub is_private : Ip → Bool
is_private (ip4 a b c d) = a == 10 || a == 172 && b / 16 == 1 || a == 192 && b == 168
is_private (ip6 bs) = first2 (λ a b. a / 2 == 126) bs

-- ip.IsLinkLocalUnicast(): 169.254/16, and fe80::/10 (b & 0xc0 == 0x80)
unfoldable pub is_link_local_unicast : Ip → Bool
is_link_local_unicast (ip4 a b c d) = a == 169 && b == 254
is_link_local_unicast (ip6 bs) = first2 (λ a b. a == 0xfe && b / 64 == 2) bs

-- ip.IsMulticast(): 224/4 (a & 0xf0 == 0xe0), and ff00::/8
unfoldable pub is_multicast : Ip → Bool
is_multicast (ip4 a b c d) = a / 16 == 14
is_multicast (ip6 bs) = first2 (λ a b. a == 0xff) bs

-- ip.IsUnspecified()
unfoldable pub is_unspecified : Ip → Bool
unfolding text_eq
is_unspecified (ip4 a b c d) = a == 0 && b == 0 && c == 0 && d == 0
is_unspecified (ip6 bs) = text_eq bs unspecified6

-- *net.IPNet, by its Contains.
pub record IpNet : Type 0 where
  pub contains : Ip → Bool

-- What the code asks of the network and of the parsers of package net. `none` is an error or nil.
-- `lookup_ip` is the answer of the resolver, and the text of its error.
pub data Lookup : Type 0 where
  found : List Ip → Lookup
  failed : Str → Lookup

pub record Net : Type 0 where
  pub parse_ip : Str → Option Ip
  pub parse_cidr : Str → Option IpNet
  pub lookup_ip : Str → Lookup
  pub ip_string : Ip → Str

-- The errors of net.SplitHostPort.
pub data SplitError : Type 0 where
  missing_port too_many_colons missing_bracket stray_bracket : SplitError

pub data Split : Type 0 where
  parts : Str → Str → Split
  refused : SplitError → Split

-- The last two checks, over the text in which a bracket of either kind must not stand.
abbrev pub no_brackets : Str → Str → Str → Str → Split
no_brackets opening closing host port =
    if contains_byte b'[' opening
    then refused stray_bracket
    else if contains_byte b']' closing
    then refused stray_bracket
    else parts host port

-- "[" ++ s, by the cut of `s` at its first "]": the last colon must stand right behind it.
abbrev pub split_bracketed : Str → Option (Str × Str) → Split
split_bracketed s none = refused missing_bracket
split_bracketed s (some (host, [])) = refused missing_port
split_bracketed s (some (host, c ∷ port)) =
    if c == b':'
    then (if contains_byte b':' port then refused too_many_colons else no_brackets s port host port)
    else refused missing_port

-- `whole`, by its cut at its last colon.
abbrev pub split_plain : Str → Option (Str × Str) → Split
split_plain whole none = refused missing_port
split_plain whole (some (host, port)) =
    if contains_byte b':' host then refused too_many_colons else no_brackets whole whole host port

-- net.SplitHostPort(hostport)
unfoldable pub split_host_port : Str → Split
unfolding contains_byte cut cut_last
split_host_port [] = refused missing_port
split_host_port (c ∷ s) =
    if contains_byte b':' (c ∷ s)
    then (if c == b'['
        then split_bracketed s (cut b']' s)
        else split_plain (c ∷ s) (cut_last b':' (c ∷ s)))
    else refused missing_port
