-- ===== src/Netutil/Netfilter/Hosts.antt =====
-- Which hosts the lists and the address checks let through.
use mathlib.Core.Path.{subst}
use reglet_hostlib.Base.{
  ◌≡◌, refl, sym, ◌∙◌, ◌↔◌, inl, inr, true, Option, none, some, List, arith, any, any_iff, Any,
  Bool-cases, Option-cases, if◌then◌else◌,
}
use reglet_hostlib.Base.Text.{Str}
use reglet_hostlib.Netutil.Address.{Ip, Net, Lookup, found, failed}
use reglet_hostlib.Netutil.Netfilter.{
  NetfilterConfig, NetfilterResult, pass, block, address_blocked, dns_failed, first, validated,
  resolved, check_ip_security_restrictions, cidr_match, matches_pattern, check_host_lists,
  validate_ip, resolve_and_validate_ip, validate_host,
}
use reglet_hostlib.Netutil.Netfilter.Public.{
  IsPublic, check_ip_security-IsPublic, IsPublic-check_ip_security,
}

module _ (net : Net) (cfg : NetfilterConfig) where
  -- A host is named by a pattern of a list.
  abbrev pub Names : List Str → Str → Type 0
  Names patterns host = Any (λ p. matches_pattern net host p ≡ true) patterns

  -- An address lies in a block of a list.
  abbrev pub Within : List Str → Ip → Type 0
  Within patterns ip = Any (λ p. cidr_match net ip p ≡ true) patterns

  -- The address that the filter judges a host by: the first that the resolver gives, or what the
  -- host itself spells where the resolver fails or is off; `none` if it fails on a name.
  abbrev spelled : Option Ip → Option (Option Ip)
  spelled none = none
  spelled (some ip) = some (some ip)

  abbrev looked_up : Str → Lookup → Option (Option Ip)
  looked_up host (found ips) = some (first ips)
  looked_up host (failed message) = spelled (net.parse_ip host)

  abbrev pub address_of : Str → Option (Option Ip)
  address_of host =
      if cfg.resolve_dns then looked_up host (net.lookup_ip host) else some (net.parse_ip host)

  -- Why a host passes: an allow list names it; or no list does, and its address, if there is one,
  -- is public and in no blocked block.
  pub data Passes (host : Str) : Option Str → Type 0 where
    allowed : Names cfg.allowlist host → Passes host none
    nameless :
        ¬ Names cfg.allowlist host
        → ¬ Names cfg.blocklist host
        → address_of host ≡ some none
        → Passes host none
    public :
        (ip : Ip)
        → ¬ Names cfg.allowlist host
        → ¬ Names cfg.blocklist host
        → address_of host ≡ some (some ip)
        → ¬ Within cfg.blocklist ip
        → IsPublic cfg ip
        → Passes host (some (net.ip_string ip))

  Names-iff :
      (patterns : List Str) (host : Str)
      → (any (λ p. matches_pattern net host p) patterns ≡ true) ↔ Names patterns host
  Names-iff patterns host = any_iff _ _ (λ p. ((λ h. h), (λ h. h))) patterns

  Within-iff :
      (patterns : List Str) (ip : Ip)
      → (any (λ p. cidr_match net ip p) patterns ≡ true) ↔ Within patterns ip
  Within-iff patterns ip = any_iff _ _ (λ p. ((λ h. h), (λ h. h))) patterns

  -- An address passes exactly if it is in no blocked block and public.
  validate_ip_pass :
      (ip : Ip) (r : Option Str)
      → validate_ip net ip cfg ≡ pass r
      → (some (net.ip_string ip) ≡ r) × ¬ Within cfg.blocklist ip × IsPublic cfg ip
  unfolding validate_ip
  validate_ip_pass ip r h = elim (Bool-cases (any (λ b. cidr_match net ip b) cfg.blocklist)) [
    | inl e ↦ ground arith
    | inr e ↦ elim (Option-cases (check_ip_security_restrictions ip cfg)) [
      | inl e' ↦ (
        ground arith,
        λ b. cc (e, (Within-iff cfg.blocklist ip).1 b),
        check_ip_security-IsPublic ip cfg e',
      )
      | inr (reason, e') ↦ ground arith
    ]
  ]

  pass_validate_ip :
      (ip : Ip)
      → ¬ Within cfg.blocklist ip
      → IsPublic cfg ip
      → validate_ip net ip cfg ≡ pass (some (net.ip_string ip))
  unfolding validate_ip
  pass_validate_ip ip outside public_ip =
      elim (Bool-cases (any (λ b. cidr_match net ip b) cfg.blocklist)) [
        | inl e ↦ absurd (outside ((Within-iff cfg.blocklist ip).0 e))
        | inr e ↦ ground (arith, IsPublic-check_ip_security ip cfg public_ip)
      ]

  -- What resolving a host leads to, by the address that it is judged by.
  abbrev Outcome : Option (Option Ip) → NetfilterResult → Type 0
  Outcome none r = (message : Str) × (r ≡ block (dns_failed message))
  Outcome (some none) r = r ≡ pass none
  Outcome (some (some ip)) r = r ≡ validate_ip net ip cfg

  by_text : (o : Option Ip) → Outcome (some o) (validated net cfg o)
  by_text none = refl
  by_text (some ip) = refl

  by_spelling :
      (message : Str) (o : Option Ip)
      → Outcome
          (spelled o)
          (elim o [ none ↦ block (dns_failed message) | some ip ↦ validate_ip net ip cfg ])
  by_spelling message none = (message, refl)
  by_spelling message (some ip) = refl

  by_lookup : (host : Str) (l : Lookup) → Outcome (looked_up host l) (resolved net host cfg l)
  by_lookup host (found ips) = by_text (first ips)
  by_lookup host (failed message) = by_spelling message (net.parse_ip host)

  resolve-Outcome : (host : Str) → Outcome (address_of host) (resolve_and_validate_ip net host cfg)
  unfolding resolve_and_validate_ip
  resolve-Outcome host = elim (Bool-cases cfg.resolve_dns) [
    | inl e ↦ simp e (by_lookup host (net.lookup_ip host))
    | inr e ↦ simp e (by_text (net.parse_ip host))
  ]

  -- The three ways in which the lists decide.
  data Listing (host : Str) : Option NetfilterResult → Type 0 where
    on_allowlist : Names cfg.allowlist host → Listing host (some (pass none))
    on_blocklist :
        ¬ Names cfg.allowlist host
        → Names cfg.blocklist host
        → Listing host (some (block address_blocked))
    unlisted : ¬ Names cfg.allowlist host → ¬ Names cfg.blocklist host → Listing host none

  listing : (host : Str) → Listing host (check_host_lists net host cfg)
  unfolding check_host_lists
  listing host = elim (Bool-cases (any (λ p. matches_pattern net host p) cfg.allowlist)) [
    | inl e ↦ rw e (on_allowlist ((Names-iff cfg.allowlist host).0 e))
    | inr e ↦
        let off : ¬ Names cfg.allowlist host = λ n. cc (e, (Names-iff cfg.allowlist host).1 n) in
        elim (Bool-cases (any (λ p. matches_pattern net host p) cfg.blocklist)) [
          | inl e' ↦ rw (e, e') (on_blocklist off ((Names-iff cfg.blocklist host).0 e'))
          | inr e' ↦ rw (e, e') (unlisted off (λ n. cc (e', (Names-iff cfg.blocklist host).1 n)))
        ]
  ]

  -- A host that no list names, by the address that it is judged by.
  judged-Passes :
      (host : Str) (r : Option Str)
      → ¬ Names cfg.allowlist host
      → ¬ Names cfg.blocklist host
      → resolve_and_validate_ip net host cfg ≡ pass r
      → Passes host r
  judged-Passes host r a b h = go (address_of host) refl (resolve-Outcome host)
    where
      go :
          (o : Option (Option Ip))
          → address_of host ≡ o
          → Outcome o (resolve_and_validate_ip net host cfg)
          → Passes host r
      go none e (message, failure) = cc
      go (some none) e same = subst (Passes host) (cc) (nameless a b e)
      go (some (some ip)) e same =
          let (shown, outside, public_ip) = validate_ip_pass ip r (sym same ∙ h) in
          subst (Passes host) shown (public ip a b e outside public_ip)

  pub Passes-of_validate_host :
      (host : Str) (r : Option Str) → validate_host net host cfg ≡ pass r → Passes host r
  unfolding validate_host
  Passes-of_validate_host host r h = go (check_host_lists net host cfg) (listing host) h
    where
      go :
          (o : Option NetfilterResult)
          → Listing host o
          → (elim o [ some result ↦ result | none ↦ resolve_and_validate_ip net host cfg ]) ≡ pass r
          → Passes host r
      go _ (on_allowlist n) h = subst (Passes host) (cc) (allowed n)
      go _ (on_blocklist a n) h = cc
      go _ (unlisted a b) h = judged-Passes host r a b h

  listed_passes : (host : Str) → Names cfg.allowlist host → validate_host net host cfg ≡ pass none
  unfolding validate_host
  listed_passes host named = go (check_host_lists net host cfg) (listing host)
    where
      go :
          (o : Option NetfilterResult)
          → Listing host o
          → (elim o [ some result ↦ result | none ↦ resolve_and_validate_ip net host cfg ])
            ≡ pass none
      go _ (on_allowlist n) = refl
      go _ (on_blocklist a n) = absurd (a named)
      go _ (unlisted a b) = absurd (a named)

  unlisted_resolves :
      (host : Str)
      → ¬ Names cfg.allowlist host
      → ¬ Names cfg.blocklist host
      → validate_host net host cfg ≡ resolve_and_validate_ip net host cfg
  unfolding validate_host
  unlisted_resolves host off_allow off_block = go (check_host_lists net host cfg) (listing host)
    where
      go :
          (o : Option NetfilterResult)
          → Listing host o
          → (elim o [ some result ↦ result | none ↦ resolve_and_validate_ip net host cfg ])
            ≡ resolve_and_validate_ip net host cfg
      go _ (on_allowlist n) = absurd (off_allow n)
      go _ (on_blocklist a n) = absurd (off_block n)
      go _ (unlisted a b) = refl

  pub validate_host_of_Passes :
      (host : Str) (r : Option Str) → Passes host r → validate_host net host cfg ≡ pass r
  validate_host_of_Passes host _ (allowed n) = listed_passes host n
  validate_host_of_Passes host _ (nameless a b e) =
      unlisted_resolves host a b ∙ (rw e at (resolve-Outcome host))
  validate_host_of_Passes host _ (public ip a b e outside public_ip) =
      unlisted_resolves host a b
      ∙ (rw e at (resolve-Outcome host))
      ∙ pass_validate_ip ip outside public_ip
