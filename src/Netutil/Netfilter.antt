-- ===== src/Netutil/Netfilter.antt =====
-- netutil/netfilter.go: the filter of outbound addresses.
pub mod Ports
pub mod Public
pub mod Hosts
pub mod Verdict
pub mod Examples
use reglet_hostlib.Base.{
  ℕ, zero, suc, ◌+◌, ◌-◌, ◌*◌, ◌%◌, ◌<◌, Bool, true, false, ◌&&◌, ◌||◌, not, Option, none, some,
  List, [], ◌∷◌, ◌++◌, ◌==◌, ltb, length, any, if◌then◌else◌,
}
use reglet_hostlib.Base.Text.{
  Str, codes, text_eq, contains, contains_byte, count_byte, has_prefix, has_suffix,
}
use reglet_hostlib.Base.Int.{int_mod, int_half, is_digit, to_signed, ℤ, pos, ltb_ℤ}
use reglet_hostlib.Netutil.Address.{
  Ip, IpNet, Net, Lookup, found, failed, Split, SplitError, parts, refused, split_host_port,
  is_loopback, is_private, is_link_local_unicast, is_multicast, is_unspecified,
}

pub record NetfilterConfig : Type 0 where
  pub allowlist : List Str
  pub blocklist : List Str
  pub allowed_ports : List ℤ
  pub blocked_ports : List ℤ
  pub block_private : Bool
  pub block_localhost : Bool
  pub block_link_local : Bool
  pub block_multicast : Bool
  pub resolve_dns : Bool

abbrev pub default_netfilter_config : NetfilterConfig
default_netfilter_config = record {
  allowlist = [];
  blocklist = [];
  allowed_ports = [];
  blocked_ports = [];
  block_private = true;
  block_localhost = true;
  block_link_local = true;
  block_multicast = true;
  resolve_dns = true;
}

-- The reason of a refusal; an error of another package is its text or its kind.
pub data Reason : Type 0 where
  invalid_format : SplitError → Reason
  invalid_port : Reason
  port_not_allowed port_blocked address_blocked cidr_blocked : Reason
  dns_failed : Str → Reason
  loopback_blocked private_blocked link_local_blocked multicast_blocked unspecified_blocked : Reason

-- `pass` is an allowed result with its ResolvedIP, `block` a refused one with its reason.
pub data NetfilterResult : Type 0 where
  pass : Option Str → NetfilterResult
  block : Reason → NetfilterResult

-- A functional option changes the configuration.
pub data NetfilterOption : Type 0 where
  with_allowlist with_blocklist : List Str → NetfilterOption
  with_block_private with_block_localhost with_block_link_local with_resolve_dns :
      Bool → NetfilterOption
  with_allowed_ports with_blocked_ports : List ℤ → NetfilterOption

unfoldable pub apply_option : NetfilterConfig → NetfilterOption → NetfilterConfig
apply_option c (with_allowlist addresses) = record c { allowlist = addresses }
apply_option c (with_blocklist addresses) = record c { blocklist = addresses }
apply_option c (with_block_private b) = record c { block_private = b }
apply_option c (with_block_localhost b) = record c { block_localhost = b }
apply_option c (with_block_link_local b) = record c { block_link_local = b }
apply_option c (with_resolve_dns b) = record c { resolve_dns = b }
apply_option c (with_allowed_ports ports) = record c { allowed_ports = ports }
apply_option c (with_blocked_ports ports) = record c { blocked_ports = ports }

unfoldable pub apply_options : NetfilterConfig → List NetfilterOption → NetfilterConfig
unfolding apply_option
apply_options c [] = c
apply_options c (o ∷ os) = apply_options (apply_option c o) os

-- An error of `parseAddress`.
pub data Parsed : Type 0 where
  host_port : Str → ℤ → Parsed
  split_failed : SplitError → Parsed
  bad_port : Parsed

-- The loop over the digits of the port: a 64-bit `int` that wraps around.
unfoldable pub parse_port : ℕ → Str → Option ℕ
parse_port port [] = some port
parse_port port (c ∷ p) =
    let rest = parse_port ((port * 10 + (c - 48)) % int_mod) p in if is_digit c then rest else none

abbrev with_port : Str → Option ℕ → Parsed
with_port host none = bad_port
with_port host (some port) = host_port host (to_signed port)

abbrev parse_split : Str → Split → Parsed
parse_split address (parts host port) = with_port host (parse_port 0 port)
parse_split address (refused e) =
    if contains address (codes "::") || ltb 1 (count_byte b':' address)
    then host_port address (pos 0)
    else split_failed e

unfoldable pub parse_address : Str → Parsed
unfolding parse_port split_host_port contains contains_byte count_byte
parse_address address =
    if contains_byte b':' address
    then parse_split address (split_host_port address)
    else host_port address (pos 0)

abbrev pub int_eq : ℤ → ℤ → Bool
int_eq a b = not (ltb_ℤ a b) && not (ltb_ℤ b a)

abbrev pub is_empty {ℓ} : {A : Type ℓ} → List A → Bool
is_empty [] = true
is_empty (x ∷ xs) = false

-- `none` is the allowed result, with which the checks go on.
unfoldable pub check_port_restrictions : ℤ → NetfilterConfig → Option Reason
check_port_restrictions port cfg =
    if not (is_empty cfg.allowed_ports)
      && ltb_ℤ (pos 0) port
      && not (any (λ p. int_eq p port) cfg.allowed_ports)
    then some port_not_allowed
    else if any (λ p. int_eq p port) cfg.blocked_ports
    then some port_blocked
    else none

unfoldable pub check_ip_security_restrictions : Ip → NetfilterConfig → Option Reason
check_ip_security_restrictions ip cfg =
    if cfg.block_localhost && is_loopback ip
    then some loopback_blocked
    else if cfg.block_private && is_private ip
    then some private_blocked
    else if cfg.block_link_local && is_link_local_unicast ip
    then some link_local_blocked
    else if cfg.block_multicast && is_multicast ip
    then some multicast_blocked
    else if is_unspecified ip
    then some unspecified_blocked
    else none

-- "*.example.com" matches a host that ends in ".example.com".
unfoldable pub wildcard_match : Str → Str → Bool
unfolding has_suffix
wildcard_match host (star ∷ dot ∷ domain) =
    star == b'*' && dot == b'.' && has_suffix host (dot ∷ domain)
wildcard_match host _ = false

abbrev contains_ip : Ip → Option IpNet → Bool
contains_ip ip none = false
contains_ip ip (some ip_net) = ip_net.contains ip

-- ips[0], if there is one
abbrev pub first : List Ip → Option Ip
first [] = none
first (ip ∷ ips) = some ip

module _ (net : Net) where
  -- The pattern is a block of addresses that contains the address.
  unfoldable pub cidr_match : Ip → Str → Bool
  cidr_match ip pattern = contains_ip ip (net.parse_cidr pattern)

  unfoldable pub matches_pattern : Str → Str → Bool
  unfolding wildcard_match cidr_match text_eq
  matches_pattern host pattern =
      text_eq host pattern
      || wildcard_match host pattern
      || elim (net.parse_ip host) [ none ↦ false | some ip ↦ cidr_match ip pattern ]

  -- The decision of the two lists, or `none` to go on.
  unfoldable pub check_host_lists : Str → NetfilterConfig → Option NetfilterResult
  check_host_lists host cfg =
      if any (λ allowed. matches_pattern host allowed) cfg.allowlist
      then some (pass none)
      else if any (λ blocked. matches_pattern host blocked) cfg.blocklist
      then some (block address_blocked)
      else none

  -- The last test of the code has one result on both sides.
  unfoldable pub validate_ip : Ip → NetfilterConfig → NetfilterResult
  validate_ip ip cfg =
      if any (λ blocked. cidr_match ip blocked) cfg.blocklist
      then block cidr_blocked
      else elim (check_ip_security_restrictions ip cfg) [
        | some reason ↦ block reason
        | none ↦
            if any (λ allowed. cidr_match ip allowed) cfg.allowlist
            then pass (some (net.ip_string ip))
            else pass (some (net.ip_string ip))
      ]

  abbrev pub validated : NetfilterConfig → Option Ip → NetfilterResult
  validated cfg none = pass none
  validated cfg (some ip) = validate_ip ip cfg

  abbrev pub resolved : Str → NetfilterConfig → Lookup → NetfilterResult
  resolved host cfg (found ips) = validated cfg (first ips)
  resolved host cfg (failed message) = elim (net.parse_ip host) [
    | none ↦ block (dns_failed message)
    | some ip ↦ validate_ip ip cfg
  ]

  unfoldable pub resolve_and_validate_ip : Str → NetfilterConfig → NetfilterResult
  resolve_and_validate_ip host cfg =
      if cfg.resolve_dns
      then resolved host cfg (net.lookup_ip host)
      else validated cfg (net.parse_ip host)

  unfoldable pub validate_host : Str → NetfilterConfig → NetfilterResult
  validate_host host cfg = elim (check_host_lists host cfg) [
    | some result ↦ result
    | none ↦ resolve_and_validate_ip host cfg
  ]

  abbrev pub checked_port : NetfilterConfig → Str → Option Reason → NetfilterResult
  checked_port cfg host (some reason) = block reason
  checked_port cfg host none = validate_host host cfg

  abbrev pub validate_parsed : NetfilterConfig → Parsed → NetfilterResult
  validate_parsed cfg (split_failed e) = block (invalid_format e)
  validate_parsed cfg bad_port = block invalid_port
  validate_parsed cfg (host_port host port) =
      checked_port cfg host (check_port_restrictions port cfg)

  unfoldable pub validate_with : NetfilterConfig → Str → NetfilterResult
  validate_with cfg address = validate_parsed cfg (parse_address address)

  -- ValidateAddress(address, opts...)
  unfoldable pub validate_address : Str → List NetfilterOption → NetfilterResult
  unfolding validate_with apply_options
  validate_address address opts =
      validate_with (apply_options default_netfilter_config opts) address
