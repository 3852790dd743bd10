-- ===== src/Netutil/SecureDialer/Examples.antt =====
-- Tests of the dialer, and its theorem at a concrete input.
use mathlib.Core.Path.{subst}
use reglet_hostlib.Base.{
  ◌≡◌, refl, sym, ap, inl, inr, false, none, some, List, [], ◌∷◌, All, arith, Bool-cases,
  if◌then◌else◌,
}
use reglet_hostlib.Base.Text.{Str, codes, text_eq, text_eq_iff, contains_byte}
use reglet_hostlib.Base.Map.{lookup}
use reglet_hostlib.Netutil.Address.{Ip, ip4, Lookup, found, failed}
use reglet_hostlib.Netutil.SecureDialer.{SecureDialer, Surroundings, dial_context}
use reglet_hostlib.Netutil.SecureDialer.Parsing.{IsAddressText}
use reglet_hostlib.Netutil.SecureDialer.Pinning.{IsNet, Secure, dial_context-Secure}
use reglet_hostlib.Netutil.SecureDialer.Validated.{IsSafe}

-- A network of one host, 8.8.8.8.
abbrev only : Ip
only = ip4 8 8 8 8

abbrev network : Surroundings
network = record {
  net = record {
    parse_ip = λ t. if text_eq t (codes "8.8.8.8") then some only else none;
    parse_cidr = λ t. none;
    lookup_ip = λ t. failed [];
    ip_string = λ ip. codes "8.8.8.8";
  };
  lookup_addr = λ host. found (only ∷ []);
  now = 0;
}

only-IsAddressText : IsAddressText (codes "8.8.8.8")
unfolding contains_byte
only-IsAddressText = ((refl, refl), inl refl)

literal_text :
    (t : Str) (ip : Ip)
    → (if text_eq t (codes "8.8.8.8") then some only else none) ≡ some ip
    → IsAddressText t
literal_text t ip e = elim (Bool-cases (text_eq t (codes "8.8.8.8"))) [
  | inl same ↦
      subst IsAddressText (sym ((text_eq_iff t (codes "8.8.8.8")).0 same)) only-IsAddressText
  | inr other ↦ absurd (ground arith)
]

addresses : Lookup → List Ip
addresses (found ips) = ips
addresses (failed e) = []

network-IsNet : IsNet network
unfolding text_eq addresses
network-IsNet = record {
  Valid = λ ip. only ≡ ip;
  reads_back = λ ip same. ap some same;
  literal = literal_text;
  resolves = λ host ips e. subst (All (λ ip. only ≡ ip)) (ap addresses e) (refl, tt);
}

abbrev dialer : SecureDialer
dialer = record { cache_ttl = 0; allow_private_network = false; cache = []; notices = [] }

dialer-IsSafe : IsSafe dialer
dialer-IsSafe = record { pins = λ host entry e. unfold lookup in cc e }

dial_context-Secure_example : Secure network (dial_context network (codes "dns.io:443") dialer)
dial_context-Secure_example =
    dial_context-Secure network network-IsNet dialer refl dialer-IsSafe (codes "dns.io:443")
