-- ===== src/HostFunctions/Dns/Records.antt =====
-- Which addresses a lookup gives.
use reglet_hostlib.Base.{
  ◌≡◌, refl, ◌↔◌, ◌⊎◌, inl, inr, Bool, true, false, ◌||◌, none, List, [], ◌∷◌, Any, arith,
  Bool-cases,
}
use reglet_hostlib.Base.Text.{Str, codes, text_eq, text_eq_iff}
use reglet_hostlib.ExecSecurity.{to_upper}
use reglet_hostlib.Netutil.Address.{Ip, ip4, ip6}
use reglet_hostlib.HostFunctions.Dns.{
  DnsLookupRequest, DnsLookupResponse, DnsOption, default_dns_config, apply_options, found,
  Resolver, Network, is_v4, skips, host_records, lookup_by_type, request_config, with_port,
  perform_dns_lookup,
}

-- Whether a type, in just this spelling, asks for an address.
abbrev pub Asks : Str → Ip → Type 0
Asks record_type ip =
    (record_type ≡ codes "A" → is_v4 ip ≡ true) × (record_type ≡ codes "AAAA" → is_v4 ip ≡ false)

skips_iff : (t : Str) (ip : Ip) → (skips t ip ≡ false) ↔ Asks t ip
unfolding skips
skips_iff t (ip4 a b c d) = ground (arith, text_eq_iff t (codes "AAAA"))
skips_iff t (ip6 bs) = ground (arith, text_eq_iff t (codes "A"))

clash : {b : Bool} → b ≡ true → b ≡ false → ⊥
clash p q = cc

module _ (ip_string : Ip → Str) (t : Str) where
  -- The text of an address that the type asks for.
  abbrev pub Listed : List Ip → Str → Type 0
  Listed ips e = Any (λ ip. Asks t ip × (ip_string ip ≡ e)) ips

  host_records_iff :
      (ips : List Ip) (e : Str) → Any (λ r. r ≡ e) (host_records ip_string t ips) ↔ Listed ips e
  unfolding host_records
  host_records_iff [] e = (λ h. h, λ h. h)
  host_records_iff (ip ∷ ips) e = elim (Bool-cases (skips t ip)) [
    | inl out ↦ rw out (
      λ h. inr ((host_records_iff ips e).0 h),
      elim [
        | inl a ↦ absurd (clash out ((skips_iff t ip).1 a.0))
        | inr a ↦ (host_records_iff ips e).1 a
      ],
    )
    | inr kept ↦ rw kept (
      elim [
        | inl same ↦ inl ((skips_iff t ip).0 kept, same)
        | inr a ↦ inr ((host_records_iff ips e).0 a)
      ],
      elim [ inl a ↦ inl a.1 | inr a ↦ inr ((host_records_iff ips e).1 a) ],
    )
  ]

-- The answer of a lookup for addresses.
pub record Lists (ip_string : Ip → Str) (t : Str) (ips : List Ip) (r : DnsLookupResponse)
    : Type 0 where
  pub no_error : r.error ≡ none
  pub records : (e : Str) → Any (λ s. s ≡ e) r.records ↔ Listed ip_string t ips e

-- The types that are looked up as addresses.
abbrev pub IsAddressType : Str → Type 0
IsAddressType upper = (upper ≡ codes "A") ⊎ ((upper ≡ codes "AAAA") ⊎ (upper ≡ []))

address_test :
    (upper : Str)
    → IsAddressType upper
    → (text_eq upper (codes "A") || (text_eq upper (codes "AAAA") || text_eq upper [])) ≡ true
address_test upper h =
    ground
      (arith, text_eq_iff upper (codes "A"), text_eq_iff upper (codes "AAAA"), text_eq_iff upper [])

lookup-Lists :
    (ip_string : Ip → Str) (r : Resolver) (req : DnsLookupRequest) (upper : Str) (ips : List Ip)
    → IsAddressType upper
    → r.lookup_ip_addr req.hostname ≡ found ips
    → Lists ip_string req.record_type ips (lookup_by_type ip_string r req upper)
unfolding lookup_by_type
lookup-Lists ip_string r req upper ips h e =
    rw (lookup_by_type, address_test upper h, e)
      (record { no_error = refl; records = host_records_iff ip_string req.record_type ips })

-- A lookup whose type in upper case is A, AAAA or empty, and for which the resolver finds
-- addresses, gives the texts of those that the type asks for: for A in just this spelling the IPv4
-- ones, for AAAA the others, and for every other spelling all.
pub perform_dns_lookup-Lists :
    (unicode : Str → Str) (n : Network) (req : DnsLookupRequest) (opts : List DnsOption)
    (ips : List Ip)
    → IsAddressType (to_upper unicode req.record_type)
    → (let c = request_config req (apply_options opts default_dns_config) in
        (n.resolver (with_port c.nameserver) c.timeout).lookup_ip_addr req.hostname)
      ≡ found ips
    → Lists n.ip_string req.record_type ips (perform_dns_lookup unicode n req opts)
unfolding perform_dns_lookup
perform_dns_lookup-Lists unicode n req opts ips h e =
    let c = request_config req (apply_options opts default_dns_config) in
    lookup-Lists n.ip_string (n.resolver (with_port c.nameserver) c.timeout) req
      (to_upper unicode req.record_type) ips h e
