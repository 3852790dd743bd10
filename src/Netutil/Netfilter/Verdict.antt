-- ===== src/Netutil/Netfilter/Verdict.antt =====
-- The verdict of `ValidateAddress`, whole.
use reglet_hostlib.Base.{
  ◌≡◌, refl, ◌↔◌, inl, inr, false, Option, none, some, List, [], Option-cases,
}
use reglet_hostlib.Base.Text.{Str}
use reglet_hostlib.Base.Int.{ℤ}
use reglet_hostlib.Netutil.Address.{
  Ip, Net, is_loopback, is_private, is_link_local_unicast, is_multicast, is_unspecified,
}
use reglet_hostlib.Netutil.Netfilter.{
  NetfilterConfig, NetfilterOption, default_netfilter_config, pass, apply_options, Parsed,
  host_port, split_failed, bad_port, parse_address, validate_parsed, check_port_restrictions,
  checked_port, validate_with, validate_address,
}
use reglet_hostlib.Netutil.Netfilter.Ports.{IsOpen, check_port-IsOpen, IsOpen-check_port}
use reglet_hostlib.Netutil.Netfilter.Public.{IsPublic}
use reglet_hostlib.Netutil.Netfilter.Hosts.{
  Names, Passes, allowed, nameless, public, Passes-of_validate_host, validate_host_of_Passes,
}

module _ (net : Net) (cfg : NetfilterConfig) where
  -- The address parses, its port is open, and its host passes.
  pub record Admits (address : Str) (r : Option Str) : Type 0 where
    pub host : Str
    pub port : ℤ
    pub parses : parse_address address ≡ host_port host port
    pub is_open : IsOpen cfg port
    pub passes : Passes net cfg host r

  Admits-of_pass :
      (address : Str) (r : Option Str) → validate_with net cfg address ≡ pass r → Admits address r
  unfolding validate_with
  Admits-of_pass address r h = go (parse_address address) refl h
    where
      go :
          (p : Parsed)
          → parse_address address ≡ p
          → validate_parsed net cfg p ≡ pass r
          → Admits address r
      go (split_failed e) parses h = cc
      go bad_port parses h = cc
      go (host_port host port) parses h = elim (Option-cases (check_port_restrictions port cfg)) [
        | inl e ↦ record {
          host = host;
          port = port;
          parses = parses;
          is_open = check_port-IsOpen port cfg e;
          passes = Passes-of_validate_host net cfg host r (rw e at h);
        }
        | inr (reason, e) ↦
            let clash : checked_port net cfg host (some reason) ≡ pass r = rw e at h in cc
      ]

  pass_of_Admits :
      (address : Str) (r : Option Str) → Admits address r → validate_with net cfg address ≡ pass r
  unfolding validate_with
  pass_of_Admits address r a =
      rw (a.parses, IsOpen-check_port a.port cfg a.is_open)
        (validate_host_of_Passes net cfg a.host r a.passes)

pub validate_address_iff :
    (net : Net) (address : Str) (opts : List NetfilterOption) (r : Option Str)
    → (validate_address net address opts ≡ pass r)
      ↔ Admits net (apply_options default_netfilter_config opts) address r
unfolding validate_address
validate_address_iff net address opts r = (
  Admits-of_pass net (apply_options default_netfilter_config opts) address r,
  pass_of_Admits net (apply_options default_netfilter_config opts) address r,
)

-- What the filter promises of an address by default.
pub record IsExternal (ip : Ip) : Type 0 where
  pub not_loopback : is_loopback ip ≡ false
  pub not_private : is_private ip ≡ false
  pub not_link_local : is_link_local_unicast ip ≡ false
  pub not_multicast : is_multicast ip ≡ false
  pub not_unspecified : is_unspecified ip ≡ false

shown_address :
    (net : Net) (cfg : NetfilterConfig) (host : Str) (r : Option Str) {shown : Str}
    → Passes net cfg host r
    → r ≡ some shown
    → (ip : Ip) × (shown ≡ net.ip_string ip) × IsPublic cfg ip
shown_address net cfg host _ (allowed n) e = cc
shown_address net cfg host _ (nameless a b o) e = cc
shown_address net cfg host _ (public ip a b o outside p) e = (ip, cc, p)

-- Under the default options every address that `ValidateAddress` allows with a resolved address is
-- outside the loopback, private, link-local and multicast ranges, and is not the unspecified one.
pub default-IsExternal :
    (net : Net) (address shown : Str)
    → validate_address net address [] ≡ pass (some shown)
    → (ip : Ip) × (shown ≡ net.ip_string ip) × IsExternal ip
unfolding apply_options
default-IsExternal net address shown h =
    let a = (validate_address_iff net address [] (some shown)).0 h in
    let (ip, same, p) = shown_address net default_netfilter_config a.host _ a.passes refl in
    (
      ip,
      same,
      record {
        not_loopback = p.not_loopback refl;
        not_private = p.not_private refl;
        not_link_local = p.not_link_local refl;
        not_multicast = p.not_multicast refl;
        not_unspecified = p.not_unspecified;
      },
    )

-- An address whose host a pattern of the allow list names is allowed though the block list names it
-- too, if its port is open.
pub allowlist_overrides :
    (net : Net) (cfg : NetfilterConfig) (address host : Str) (port : ℤ)
    → parse_address address ≡ host_port host port
    → IsOpen cfg port
    → Names net cfg cfg.allowlist host
    → Names net cfg cfg.blocklist host
    → validate_with net cfg address ≡ pass none
allowlist_overrides net cfg address host port parses is_open on_allowlist on_blocklist =
    pass_of_Admits net cfg address none (record {
      host = host;
      port = port;
      parses = parses;
      is_open = is_open;
      passes = allowed on_allowlist;
    })
