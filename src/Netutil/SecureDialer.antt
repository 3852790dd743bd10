-- ===== src/Netutil/SecureDialer.antt =====
-- netutil/secure_dialer.go: the dialer that validates an address once and pins it. What the code
-- asks of package net is a parameter; the connection itself is the answer `dials`. Times and the
-- lifetime of a pin are numbers that are not negative, and the clock does not go back.
pub mod Parsing
pub mod Validated
pub mod Pinning
pub mod Examples
use reglet_hostlib.Base.{
  ℕ, ◌-◌, ◌*◌, ◌^◌, Bool, true, false, Option, none, some, List, [], ◌∷◌, ◌++◌, leb, ◌==◌,
  if◌then◌else◌,
}
use reglet_hostlib.Base.Text.{Str, text_eq, contains_byte}
use reglet_hostlib.Base.Map.{Map, lookup, insert}
use reglet_hostlib.Netutil.Address.{
  Ip, ip4, ip6, Net, Lookup, found, failed, Split, SplitError, parts, refused, split_host_port,
}
use reglet_hostlib.Netutil.Netfilter.{
  NetfilterOption, with_resolve_dns, with_block_private, with_block_localhost, NetfilterResult,
  pass, block, Reason, validate_address,
}

pub record PinnedEntry : Type 0 where
  pub ip : Ip
  pub timestamp : ℕ

-- A call of OnBlocked or of OnDNSPinning.
pub data Notice : Type 0 where
  blocked : Str → Reason → Notice
  pinned : Str → Ip → Notice

pub record SecureDialer : Type 0 where
  pub cache_ttl : ℕ
  pub allow_private_network : Bool
  pub cache : Map PinnedEntry
  pub notices : List Notice

-- What package net and the clock answer: `lookup_addr` is LookupIPAddr of the resolver.
pub record Surroundings : Type 0 where
  pub net : Net
  pub lookup_addr : Str → Lookup
  pub now : ℕ

pub data Dialed : Type 0 where
  dials : Ip → Str → Dialed
  bad_address : SplitError → Dialed
  ssrf_blocked : Str → Reason → Dialed
  lookup_failed : Str → Dialed
  no_addresses : Dialed

-- net.JoinHostPort
unfoldable pub join_host_port : Str → Str → Str
join_host_port host port =
    if contains_byte b':' host then b'[' ∷ (host ++ b']' ∷ b':' ∷ port) else host ++ b':' ∷ port

-- Five minutes, in nanoseconds.
abbrev pub ttl_of : SecureDialer → ℕ
ttl_of d = if d.cache_ttl == 0 then 300 * 10 ^ 9 else d.cache_ttl

abbrev pub if_fresh : ℕ → ℕ → Option PinnedEntry → Option Ip
if_fresh now ttl none = none
if_fresh now ttl (some entry) = if leb ttl (now - entry.timestamp) then none else some entry.ip

-- getCached
unfoldable pub get_cached : Surroundings → Str → SecureDialer → Option Ip
get_cached s host d = if_fresh s.now (ttl_of d) (lookup host d.cache)

-- cacheIP
unfoldable pub cache_ip : Surroundings → Str → Ip → SecureDialer → SecureDialer
cache_ip s host ip d = record d {
  cache = insert host (record { ip = ip; timestamp = s.now }) d.cache;
}

-- The options of both validations.
abbrev pub dial_options : SecureDialer → List NetfilterOption
dial_options d =
    if d.allow_private_network
    then with_resolve_dns false ∷ with_block_private false ∷ with_block_localhost false ∷ []
    else with_resolve_dns false ∷ []

-- A validation of a text: what it is blocked for, and the dialer after it.
abbrev pub reported : Str → SecureDialer → NetfilterResult → Option Reason × SecureDialer
reported address d (pass r) = (none, d)
reported address d (block reason) =
    (some reason, record d { notices = d.notices ++ blocked address reason ∷ [] })

unfoldable pub validate_text : Surroundings → Str → SecureDialer → Option Reason × SecureDialer
validate_text s address d = reported address d (validate_address s.net address (dial_options d))

-- The address that validateWithNetfilter validates.
abbrev pub with_port_text : Str → Str → Str
with_port_text host port = if text_eq port [] then host else join_host_port host port

-- Where a validation leads: the pin and the connection, or the error.
abbrev pub settled :
    Surroundings → Str → Str → Ip → Str → Option Reason × SecureDialer → Dialed × SecureDialer
settled s host port ip address (none, d) = (dials ip port, cache_ip s host ip d)
settled s host port ip address (some reason, d) = (ssrf_blocked address reason, d)

-- The first IPv4 address, or else the first of all.
abbrev pub first_ip4 : Ip → List Ip → Ip
first_ip4 default [] = default
first_ip4 default (ip4 a b c e ∷ ips) = ip4 a b c e
first_ip4 default (ip6 bs ∷ ips) = first_ip4 default ips

abbrev pub notice_pin : Str → Ip → SecureDialer → SecureDialer
notice_pin host ip d = record d { notices = d.notices ++ pinned host ip ∷ [] }

abbrev pub dial_resolved : Surroundings → Str → Str → SecureDialer → Lookup → Dialed × SecureDialer
dial_resolved s host port d (failed message) = (lookup_failed message, d)
dial_resolved s host port d (found []) = (no_addresses, d)
dial_resolved s host port d (found (ip ∷ ips)) =
    let chosen = first_ip4 ip (ip ∷ ips) in
    let address = s.net.ip_string chosen in
    settled s host port chosen address (validate_text s address (notice_pin host chosen d))

abbrev pub dial_literal :
    Surroundings → Str → Str → SecureDialer → Option Ip → Dialed × SecureDialer
dial_literal s host port d (some ip) =
    let address = with_port_text host port in
    settled s host port ip address (validate_text s address d)
dial_literal s host port d none = dial_resolved s host port d (s.lookup_addr host)

abbrev pub dial_host : Surroundings → Str → Str → SecureDialer → Option Ip → Dialed × SecureDialer
dial_host s host port d (some ip) = (dials ip port, d)
dial_host s host port d none = dial_literal s host port d (s.net.parse_ip host)

abbrev pub dial_split : Surroundings → SecureDialer → Split → Dialed × SecureDialer
dial_split s d (refused e) = (bad_address e, d)
dial_split s d (parts host port) = dial_host s host port d (get_cached s host d)

-- DialContext
unfoldable pub dial_context : Surroundings → Str → SecureDialer → Dialed × SecureDialer
dial_context s addr d = dial_split s d (split_host_port addr)
