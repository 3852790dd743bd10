-- ===== src/Netutil/SecureDialer/Pinning.antt =====
-- What the dialer connects to and pins, where private networks are not allowed.
use mathlib.Core.Path.{subst}
use reglet_hostlib.Base.{
  ◌≡◌, refl, sym, ap, ◌∙◌, inl, inr, false, Option, none, some, List, [], ◌∷◌, arith, All,
  Bool-cases, leb, ◌-◌, if◌then◌else◌,
}
use reglet_hostlib.Base.Text.{Str, text_eq}
use reglet_hostlib.Base.Int.{ℤ}
use reglet_hostlib.Base.Map.{lookup, lookup-insert}
use reglet_hostlib.Netutil.Address.{
  Ip, ip4, ip6, Lookup, found, failed, Split, parts, refused, split_host_port,
}
use reglet_hostlib.Netutil.Netfilter.{Reason, Parsed, host_port, parse_address}
use reglet_hostlib.Netutil.Netfilter.Verdict.{IsExternal}
use reglet_hostlib.Netutil.SecureDialer.{
  PinnedEntry, SecureDialer, Surroundings, Dialed, dials, if_fresh, ttl_of, get_cached, cache_ip,
  with_port_text, settled, first_ip4, dial_resolved, dial_literal, dial_host, dial_split,
  dial_context, notice_pin,
}
use reglet_hostlib.Netutil.SecureDialer.Parsing.{
  IsPort, IsAddressText, split-IsPort, parse_join, parse_bare,
}
use reglet_hostlib.Netutil.SecureDialer.Validated.{IsSafe, Validated, validate_text-Validated}

-- What the code relies on in package net: the text of an address that the resolver gives, and any
-- text that parses to an address, has no bracket and no single colon; and the text of an address
-- parses to it again.
pub record IsNet (s : Surroundings) : Type 1 where
  pub Valid : Ip → Type 0
  pub reads_back : (ip : Ip) → Valid ip → s.net.parse_ip (s.net.ip_string ip) ≡ some ip
  pub literal : (t : Str) (ip : Ip) → s.net.parse_ip t ≡ some ip → IsAddressText t
  pub resolves : (host : Str) (ips : List Ip) → s.lookup_addr host ≡ found ips → All Valid ips

module _ (s : Surroundings) where
  -- What a dial leads to: all pins are external, and so is the address that is connected to.
  pub record Secure (r : Dialed × SecureDialer) : Type 0 where
    pub safe : IsSafe r.1
    pub external : (ip : Ip) (port : Str) → r.0 ≡ dials ip port → IsExternal ip

  cache_ip-IsSafe :
      (host : Str) (ip : Ip) (d : SecureDialer)
      → IsSafe d
      → IsExternal ip
      → IsSafe (cache_ip s host ip d)
  unfolding cache_ip
  cache_ip-IsSafe host ip d safe external = record {
    pins = λ k entry found.
        let new : PinnedEntry = record { ip = ip; timestamp = s.now } in
        let at = lookup-insert host k new d.cache in
        elim (Bool-cases (text_eq host k)) [
          | inl e ↦
              let here : some new ≡ some entry =
                sym (at ∙ ap (λ b. if b then some new else lookup k d.cache) e) ∙ found in
              let same : new ≡ entry = cc here in subst (λ x. IsExternal x.ip) same external
          | inr e ↦
              safe.pins k entry
                (sym (at ∙ ap (λ b. if b then some new else lookup k d.cache) e) ∙ found)
        ];
  }

  dials_ip : Dialed → Ip → Ip
  dials_ip (dials ip port) default = ip
  dials_ip other default = default

  settled-Secure :
      (host port address : Str) (ip : Ip) (v : Option Reason × SecureDialer)
      → Validated s ip v
      → Secure (settled s host port ip address v)
  unfolding dials_ip
  settled-Secure host port address ip (none, d) v = record {
    safe = cache_ip-IsSafe host ip d v.safe (v.external refl);
    external = λ ip' port' e. subst IsExternal (ap (λ x. dials_ip x ip) e) (v.external refl);
  }
  settled-Secure host port address ip (some reason, d) v = record {
    safe = v.safe;
    external = λ ip' port' e. cc e;
  }

  parsed_host : Str → Parsed → Str
  parsed_host default (host_port h n) = h
  parsed_host default other = default

  -- How the two texts that are validated are read.
  reads_bare :
      (t : Str) → IsAddressText t → (h : Str) (n : ℤ) → parse_address t ≡ host_port h n → t ≡ h
  unfolding parsed_host
  reads_bare t text h n parses = ap (parsed_host t) (sym (parse_bare t text) ∙ parses)

  reads_literal :
      (host port : Str)
      → IsAddressText host
      → IsPort port
      → (h : Str) (n : ℤ) → parse_address (with_port_text host port) ≡ host_port h n
      → host ≡ h
  reads_literal host port text p h n parses = elim (Bool-cases (text_eq port [])) [
    | inl e ↦ reads_bare host text h n (rw e at parses)
    | inr e ↦ parse_join host port h n text.0 p (rw e at parses)
  ]

  first_ip4-Valid :
      (Valid : Ip → Type 0) (default : Ip) (ips : List Ip)
      → Valid default
      → All Valid ips
      → Valid (first_ip4 default ips)
  first_ip4-Valid Valid default [] v h = v
  first_ip4-Valid Valid default (ip4 a b c e ∷ ips) v (w, h) = w
  first_ip4-Valid Valid default (ip6 bs ∷ ips) v (w, h) = first_ip4-Valid Valid default ips v h

  module _ (net : IsNet s) (d : SecureDialer) (strict : d.allow_private_network ≡ false)
      (safe : IsSafe d) where
    dial_resolved-Secure :
        (host port : Str) (l : Lookup)
        → s.lookup_addr host ≡ l
        → Secure (dial_resolved s host port d l)
    dial_resolved-Secure host port (failed message) e = record {
      safe = safe;
      external = λ ip port' h. cc h;
    }
    dial_resolved-Secure host port (found []) e = record {
      safe = safe;
      external = λ ip port' h. cc h;
    }
    dial_resolved-Secure host port (found (ip ∷ ips)) e =
        let all = net.resolves host (ip ∷ ips) e in
        let chosen = first_ip4 ip (ip ∷ ips) in
        let valid = first_ip4-Valid net.Valid ip (ip ∷ ips) all.0 all in
        let back = net.reads_back chosen valid in
        settled-Secure host port (s.net.ip_string chosen) chosen _ (
          validate_text-Validated s (s.net.ip_string chosen) (s.net.ip_string chosen) chosen
            (notice_pin host chosen d) strict (record { pins = safe.pins })
            (reads_bare (s.net.ip_string chosen) (net.literal (s.net.ip_string chosen) chosen back))
            back)

    dial_literal-Secure :
        (host port : Str) (o : Option Ip)
        → s.net.parse_ip host ≡ o
        → IsPort port
        → Secure (dial_literal s host port d o)
    dial_literal-Secure host port none e p =
        dial_resolved-Secure host port (s.lookup_addr host) refl
    dial_literal-Secure host port (some ip) e p =
        settled-Secure host port (with_port_text host port) ip _ (
          validate_text-Validated s (with_port_text host port) host ip d strict safe
            (reads_literal host port (net.literal host ip e) p) e)

    cached-IsExternal :
        (host : Str) (ip : Ip) (o : Option PinnedEntry)
        → lookup host d.cache ≡ o
        → if_fresh s.now (ttl_of d) o ≡ some ip
        → IsExternal ip
    cached-IsExternal host ip none e h = cc h
    cached-IsExternal host ip (some entry) e h =
        elim (Bool-cases (leb (ttl_of d) (s.now - entry.timestamp))) [
          | inl stale ↦ absurd (ground arith)
          | inr fresh ↦
              let same : entry.ip ≡ ip = ground arith in
              subst IsExternal same (safe.pins host entry e)
        ]

    dial_host-Secure :
        (host port : Str) (o : Option Ip)
        → get_cached s host d ≡ o
        → IsPort port
        → Secure (dial_host s host port d o)
    unfolding dials_ip get_cached
    dial_host-Secure host port none e p = dial_literal-Secure host port (s.net.parse_ip host) refl p
    dial_host-Secure host port (some ip) e p = record {
      safe = safe;
      external = λ ip' port' h.
          subst IsExternal (ap (λ x. dials_ip x ip) h)
            (cached-IsExternal host ip (lookup host d.cache) refl e);
    }

    dial_split-Secure :
        (addr : Str) (o : Split) → split_host_port addr ≡ o → Secure (dial_split s d o)
    dial_split-Secure addr (refused error) e = record { safe = safe; external = λ ip port h. cc h }
    dial_split-Secure addr (parts host port) e =
        dial_host-Secure host port (get_cached s host d) refl (split-IsPort addr host port e)

    -- Where private networks are not allowed and every pinned address is external, `DialContext`
    -- connects only to an external address and keeps every pin external, if package net reads its
    -- texts back as `IsNet` says.
    pub dial_context-Secure : (addr : Str) → Secure (dial_context s addr d)
    unfolding dial_context
    dial_context-Secure addr = dial_split-Secure addr (split_host_port addr) refl
