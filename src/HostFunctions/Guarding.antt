-- ===== src/HostFunctions/Guarding.antt =====
-- Where a check of a host lets a connection go.
use reglet_hostlib.Base.{◌≡◌, refl, sym, ◌≢◌, Bool, true, false, Option, none, some, [], ◌∷◌}
use reglet_hostlib.Base.Text.{Str}
use reglet_hostlib.Base.Int.{ℤ}
use reglet_hostlib.Netutil.Address.{Ip, Net}
use reglet_hostlib.Netutil.Netfilter.{NetfilterResult, pass, block, validate_address}
use reglet_hostlib.Netutil.Netfilter.Verdict.{IsExternal, default-IsExternal}
use reglet_hostlib.HostFunctions.{goes, to_checked, check_host, host_with_port}

-- A host to connect to: the text of an external address; or the host as it was given, where the
-- filter passes it with no address.
pub data Aimed (net : Net) (host : Str) (port : ℤ) (target : Str) : Type 0 where
  external : (ip : Ip) → IsExternal ip → target ≡ net.ip_string ip → Aimed net host port target
  nameless :
      validate_address net (host_with_port host port) [] ≡ pass none
      → target ≡ host
      → Aimed net host port target

-- No address has an empty text.
abbrev pub IsShown : Net → Type 0
IsShown net = (ip : Ip) → net.ip_string ip ≢ []

module _ (net : Net) (shown : IsShown net) (host : Str) (port : ℤ) where
  to_checked-Aimed :
      (r : NetfilterResult) (target : Str)
      → validate_address net (host_with_port host port) [] ≡ r
      → to_checked host r ≡ goes target
      → Aimed net host port target
  to_checked-Aimed (block reason) target e h = cc
  to_checked-Aimed (pass none) target e h = nameless e (cc)
  to_checked-Aimed (pass (some [])) target e h =
      let (ip, same, ext) = default-IsExternal net (host_with_port host port) [] e in
      absurd (shown ip (sym same))
  to_checked-Aimed (pass (some (c ∷ t))) target e h =
      let (ip, same, ext) = default-IsExternal net (host_with_port host port) (c ∷ t) e in
      external ip ext (cc)

  check_host-Aimed :
      (target : Str)
      → check_host net true false host port ≡ goes target
      → Aimed net host port target
  unfolding check_host
  check_host-Aimed target h = to_checked-Aimed _ target refl h

-- The protection that is asked for, `some` of whether private addresses are allowed, against the
-- two flags of a configuration.
abbrev pub Protects : Option Bool → Bool → Bool → Type 0
Protects none protects allow_private = protects ≡ false
Protects (some allow) protects allow_private = (protects ≡ true) × (allow_private ≡ allow)

pub protected-Aimed :
    (net : Net) (host : Str) (port : ℤ) (protects allow_private : Bool) (target : Str)
    → IsShown net
    → Protects (some false) protects allow_private
    → check_host net protects allow_private host port ≡ goes target
    → Aimed net host port target
protected-Aimed net host port true false target shown p h =
    check_host-Aimed net shown host port target h
protected-Aimed net host port true true target shown p h = cc (p.1)
protected-Aimed net host port false allow target shown p h = cc (p.0)
