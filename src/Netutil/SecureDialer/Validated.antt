-- ===== src/Netutil/SecureDialer/Validated.antt =====
-- What a validation of the dialer shows of the address, where private networks are not allowed.
use mathlib.Core.Path.{subst}
use reglet_hostlib.Base.{◌≡◌, refl, false, Option, none, some, [], ◌∷◌}
use reglet_hostlib.Base.Text.{Str}
use reglet_hostlib.Base.Int.{ℤ}
use reglet_hostlib.Base.Map.{lookup}
use reglet_hostlib.Netutil.Address.{Ip}
use reglet_hostlib.Netutil.Netfilter.{
  NetfilterConfig, NetfilterResult, Reason, pass, block, default_netfilter_config, with_resolve_dns,
  apply_options, host_port, parse_address, validate_address,
}
use reglet_hostlib.Netutil.Netfilter.Public.{IsPublic}
use reglet_hostlib.Netutil.Netfilter.Hosts.{Passes, allowed, nameless, public}
use reglet_hostlib.Netutil.Netfilter.Verdict.{IsExternal, validate_address_iff}
use reglet_hostlib.Netutil.SecureDialer.{
  PinnedEntry, SecureDialer, Surroundings, dial_options, reported, validate_text,
}

-- Every pinned address is external.
pub record IsSafe (d : SecureDialer) : Type 0 where
  pub pins :
      (host : Str) (entry : PinnedEntry) → lookup host d.cache ≡ some entry → IsExternal entry.ip

abbrev dial_config : NetfilterConfig
dial_config = record default_netfilter_config { resolve_dns = false }

module _ (s : Surroundings) where
  IsPublic-IsExternal : (ip : Ip) → IsPublic dial_config ip → IsExternal ip
  IsPublic-IsExternal ip p = record {
    not_loopback = p.not_loopback refl;
    not_private = p.not_private refl;
    not_link_local = p.not_link_local refl;
    not_multicast = p.not_multicast refl;
    not_unspecified = p.not_unspecified;
  }

  Passes-IsExternal :
      (host : Str) (r : Option Str) (ip : Ip)
      → Passes s.net dial_config host r
      → s.net.parse_ip host ≡ some ip
      → IsExternal ip
  Passes-IsExternal host _ ip (allowed n) e = absurd n
  Passes-IsExternal host _ ip (nameless a b o) e = cc
  Passes-IsExternal host _ ip (public ip' a b o outside p) e =
      let same : ip' ≡ ip = cc in subst IsExternal same (IsPublic-IsExternal ip' p)

  -- A text that is let through, and that parses to a host that spells an address.
  let_through :
      (t host : Str) (r : Option Str) (ip : Ip)
      → validate_address s.net t (with_resolve_dns false ∷ []) ≡ pass r
      → ((h : Str) (n : ℤ) → parse_address t ≡ host_port h n → host ≡ h)
      → s.net.parse_ip host ≡ some ip
      → IsExternal ip
  unfolding apply_options
  let_through t host r ip h reads e =
      let a = (validate_address_iff s.net t (with_resolve_dns false ∷ []) r).0 h in
      let same = reads a.host a.port a.parses in
      Passes-IsExternal a.host r ip a.passes (subst (λ x. s.net.parse_ip x ≡ some ip) same e)

  -- A validation of the text `t` for the address `ip`.
  pub record Validated (ip : Ip) (v : Option Reason × SecureDialer) : Type 0 where
    pub safe : IsSafe v.1
    pub external : v.0 ≡ none → IsExternal ip

  reported-Validated :
      (t : Str) (d : SecureDialer) (ip : Ip) (r : NetfilterResult)
      → IsSafe d
      → ((shown : Option Str) → r ≡ pass shown → IsExternal ip)
      → Validated ip (reported t d r)
  reported-Validated t d ip (pass shown) safe h = record {
    safe = safe;
    external = λ e. h shown refl;
  }
  reported-Validated t d ip (block reason) safe h = record {
    safe = record { pins = safe.pins };
    external = λ e. cc e;
  }

  pub validate_text-Validated :
      (t host : Str) (ip : Ip) (d : SecureDialer)
      → d.allow_private_network ≡ false
      → IsSafe d
      → ((h : Str) (n : ℤ) → parse_address t ≡ host_port h n → host ≡ h)
      → s.net.parse_ip host ≡ some ip
      → Validated ip (validate_text s t d)
  unfolding validate_text
  validate_text-Validated t host ip d strict safe reads e =
      let options : dial_options d ≡ with_resolve_dns false ∷ [] = simp strict refl in
      rw (validate_text, options)
        (reported-Validated t d ip (validate_address s.net t (with_resolve_dns false ∷ [])) safe
          (λ shown h. let_through t host shown ip h reads e))
