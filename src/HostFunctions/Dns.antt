-- ===== src/HostFunctions/Dns.antt =====
-- dns.go: lookups for a plugin. The resolver is a parameter, which is chosen by the nameserver, empty for
-- that of the system, and the time for a query.
pub mod Records
use reglet_hostlib.Base.{
  ℕ, ◌*◌, ◌^◌, Bool, true, false, ◌||◌, Option, none, some, List, [], ◌∷◌, ◌++◌, map, if◌then◌else◌,
}
use reglet_hostlib.Base.Text.{Str, codes, text_eq, contains}
use reglet_hostlib.Base.Int.{ℤ, pos, ltb_ℤ, milliseconds}
use reglet_hostlib.ExecSecurity.{to_upper}
use reglet_hostlib.Netutil.Address.{Ip, ip4, ip6}
use reglet_hostlib.HostFunctions.{says, CallError}

pub record DnsLookupRequest : Type 0 where
  pub hostname : Str
  pub record_type : Str
  pub nameserver : Str
  pub timeout : ℤ

pub record MxRecord : Type 0 where
  pub host : Str
  pub pref : ℕ

pub record DnsLookupResponse : Type 0 where
  pub error : Option CallError
  pub records : List Str
  pub mx_records : List MxRecord

pub record DnsConfig : Type 0 where
  pub nameserver : Str
  pub timeout : ℤ

unfoldable pub default_dns_config : DnsConfig
default_dns_config = record { nameserver = []; timeout = pos (5 * 10 ^ 9) }

pub data DnsOption : Type 0 where
  with_dns_lookup_timeout : ℤ → DnsOption
  with_dns_nameserver : Str → DnsOption

unfoldable pub apply_option : DnsOption → DnsConfig → DnsConfig
apply_option (with_dns_lookup_timeout d) c = if ltb_ℤ (pos 0) d then record c { timeout = d } else c
apply_option (with_dns_nameserver ns) c = record c { nameserver = ns }

unfoldable pub apply_options : List DnsOption → DnsConfig → DnsConfig
apply_options [] c = c
apply_options (o ∷ os) c = apply_options os (apply_option o c)

-- An answer of the resolver, or the text of its error.
pub data Answer (A : Type 0) : Type 0 where
  found : A → Answer A
  failed : Str → Answer A

pub record Resolver : Type 0 where
  pub lookup_ip_addr : Str → Answer (List Ip)
  pub lookup_cname : Str → Answer Str
  pub lookup_mx : Str → Answer (List MxRecord)
  pub lookup_txt : Str → Answer (List Str)
  pub lookup_ns : Str → Answer (List Str)

-- The resolvers there are, and ip.String().
pub record Network : Type 0 where
  pub resolver : Str → ℤ → Resolver
  pub ip_string : Ip → Str

abbrev pub lookup_failed : Str → Str → DnsLookupResponse
lookup_failed code message = record {
  error = some (record { code = code; message = says message });
  records = [];
  mx_records = [];
}

abbrev pub with_records : List Str → DnsLookupResponse
with_records records = record { error = none; records = records; mx_records = [] }

abbrev pub is_v4 : Ip → Bool
is_v4 (ip4 a b c d) = true
is_v4 (ip6 bs) = false

-- Whether the loop of performHostLookup skips an address.
unfoldable pub skips : Str → Ip → Bool
skips record_type (ip4 a b c d) = text_eq record_type (codes "AAAA")
skips record_type (ip6 bs) = text_eq record_type (codes "A")

unfoldable pub host_records : (Ip → Str) → Str → List Ip → List Str
unfolding skips
host_records ip_string record_type [] = []
host_records ip_string record_type (ip ∷ ips) =
    let rest = host_records ip_string record_type ips in
    if skips record_type ip then rest else ip_string ip ∷ rest

-- The five lookups, by the answer of the resolver.
abbrev pub host_response : (Ip → Str) → Str → Answer (List Ip) → DnsLookupResponse
host_response ip_string record_type (failed message) = lookup_failed (codes "LOOKUP_FAILED") message
host_response ip_string record_type (found ips) =
    with_records (host_records ip_string record_type ips)

abbrev pub cname_response : Answer Str → DnsLookupResponse
cname_response (failed message) = lookup_failed (codes "LOOKUP_FAILED") message
cname_response (found cname) = with_records (cname ∷ [])

abbrev pub mx_response : Answer (List MxRecord) → DnsLookupResponse
mx_response (failed message) = lookup_failed (codes "LOOKUP_FAILED") message
mx_response (found mxs) = record { error = none; records = []; mx_records = mxs }

abbrev pub text_response : Answer (List Str) → DnsLookupResponse
text_response (failed message) = lookup_failed (codes "LOOKUP_FAILED") message
text_response (found texts) = with_records texts

-- The switch on the type, in upper case.
unfoldable pub lookup_by_type : (Ip → Str) → Resolver → DnsLookupRequest → Str → DnsLookupResponse
lookup_by_type ip_string r req upper =
    if text_eq upper (codes "A") || (text_eq upper (codes "AAAA") || text_eq upper [])
    then host_response ip_string req.record_type (r.lookup_ip_addr req.hostname)
    else if text_eq upper (codes "CNAME")
    then cname_response (r.lookup_cname req.hostname)
    else if text_eq upper (codes "MX")
    then mx_response (r.lookup_mx req.hostname)
    else if text_eq upper (codes "TXT")
    then text_response (r.lookup_txt req.hostname)
    else if text_eq upper (codes "NS")
    then text_response (r.lookup_ns req.hostname)
    else lookup_failed (codes "UNSUPPORTED_TYPE")
        (codes "unsupported record type: " ++ req.record_type)

abbrev pub request_config : DnsLookupRequest → DnsConfig → DnsConfig
request_config req c = record {
  nameserver = if text_eq req.nameserver [] then c.nameserver else req.nameserver;
  timeout = if ltb_ℤ (pos 0) req.timeout then milliseconds req.timeout else c.timeout;
}

-- The nameserver that is dialed.
unfoldable pub with_port : Str → Str
with_port ns =
    if text_eq ns [] then [] else if contains ns (codes ":") then ns else ns ++ codes ":53"

-- PerformDNSLookup
unfoldable pub perform_dns_lookup :
    (Str → Str) → Network → DnsLookupRequest → List DnsOption → DnsLookupResponse
perform_dns_lookup unicode n req opts =
    let c = request_config req (apply_options opts default_dns_config) in
    lookup_by_type n.ip_string (n.resolver (with_port c.nameserver) c.timeout) req
      (to_upper unicode req.record_type)
