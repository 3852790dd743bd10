-- ===== src/Netutil/Netfilter/Examples.antt =====
-- Tests of the address filter, and its theorems at concrete inputs.
use reglet_hostlib.Base.{◌≡◌, refl, Option, none, some, [], ◌∷◌, any, if◌then◌else◌}
use reglet_hostlib.Base.Text.{Str, codes, text_eq}
use reglet_hostlib.Base.Int.{pos}
use reglet_hostlib.Netutil.Address.{
  Ip, ip4, Net, Lookup, found, failed, is_loopback, is_private, is_link_local_unicast, is_multicast,
  is_unspecified,
}
use reglet_hostlib.Netutil.Netfilter.{
  NetfilterConfig, default_netfilter_config, pass, block, private_blocked, loopback_blocked,
  port_not_allowed, address_blocked, with_blocklist, with_allowed_ports, host_port, parse_address,
  apply_options, check_ip_security_restrictions, validate_host, validate_ip, check_host_lists,
  check_port_restrictions, resolve_and_validate_ip, validate_with, validate_address,
  matches_pattern, cidr_match,
}
use reglet_hostlib.Netutil.Netfilter.Verdict.{IsExternal, default-IsExternal}

-- A network that knows three names and no blocks of addresses.
abbrev lookup : Str → Lookup
lookup host =
    if text_eq host (codes "site")
    then found (ip4 93 184 216 34 ∷ [])
    else if text_eq host (codes "inner")
    then found (ip4 10 0 0 1 ∷ [])
    else failed (codes "?")

abbrev home : Str → Option Ip
home host = if text_eq host (codes "home") then some (ip4 127 0 0 1) else none

abbrev small_net : Net
small_net = record {
  parse_ip = home;
  parse_cidr = λ p. none;
  lookup_ip = lookup;
  ip_string = λ ip. codes "ip";
}

filter : Unit {0}
unfolding validate_address validate_with validate_host validate_ip check_host_lists
    check_port_restrictions resolve_and_validate_ip check_ip_security_restrictions matches_pattern
    cidr_match apply_options parse_address is_loopback is_private is_link_local_unicast is_multicast
    is_unspecified text_eq any
filter = tt

verdicts :
    (validate_address small_net (codes "site:443") [] ≡ pass (some (codes "ip")))
    × (validate_address small_net (codes "inner:443") [] ≡ block private_blocked)
    × (validate_address small_net (codes "home") [] ≡ block loopback_blocked)
    × (validate_address small_net (codes "site:8080") (with_allowed_ports (pos 443 ∷ []) ∷ [])
        ≡ block port_not_allowed)
    × (validate_address small_net (codes "a.b.c") (with_blocklist (codes "*.b.c" ∷ []) ∷ [])
        ≡ block address_blocked)
    × (parse_address (codes "[::1]:80") ≡ host_port (codes "::1") (pos 80))
    × (parse_address (codes "::1") ≡ host_port (codes "::1") (pos 0))
    × (parse_address (codes "h:18446744073709551639") ≡ host_port (codes "h") (pos 23))
unfolding filter
verdicts = (refl, refl, refl, refl, refl, refl, refl, refl)

default-IsExternal_example : (ip : Ip) × (codes "ip" ≡ small_net.ip_string ip) × IsExternal ip
default-IsExternal_example =
    default-IsExternal small_net (codes "site:443") (codes "ip") (unfold filter in refl)

abbrev both_lists : NetfilterConfig
both_lists = record default_netfilter_config {
  allowlist = codes "home" ∷ [];
  blocklist = codes "home" ∷ [];
}
