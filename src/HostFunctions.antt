-- ===== src/HostFunctions.antt =====
-- The host functions of dns.go, tcp.go, smtp.go and http.go: what they have in common. A connection is
-- made by a parameter, which is told the address, the time and the TLS settings.
pub mod Guarding
pub mod Tcp
pub mod Smtp
pub mod Http
pub mod Dns
pub mod Examples
use reglet_hostlib.Base.{
  ℕ, ◌==◌, Bool, true, false, Option, none, some, List, [], ◌∷◌, ◌++◌, if◌then◌else◌,
}
use reglet_hostlib.Base.Text.{Str, codes, text_eq, contains}
use reglet_hostlib.Base.Int.{ℤ, pos, show_int, ltb_ℤ}
use reglet_hostlib.Netutil.Address.{Net}
use reglet_hostlib.Netutil.Netfilter.{
  NetfilterOption, with_block_private, with_block_localhost, NetfilterResult, pass, block, Reason,
  validate_address,
}

-- TCPError, SMTPError, DNSError and HTTPError. The message of a blocked address is its reason.
pub data Message : Type 0 where
  says : Str → Message
  because : Reason → Message

pub record CallError : Type 0 where
  pub code : Str
  pub message : Message

-- The fields of *tls.Config that the code reads or sets.
pub record TlsConfig : Type 0 where
  pub server_name : Str
  pub min_version : Str

-- What a connection is made from; `tls` is none for a plain one.
pub record Target : Type 0 where
  pub address : Str
  pub timeout : ℤ
  pub tls : Option TlsConfig

-- fmt.Sprintf("%s:%d", host, port)
abbrev pub host_with_port : Str → ℤ → Str
host_with_port host port = host ++ b':' ∷ show_int port

abbrev pub private_options : Bool → List NetfilterOption
private_options allow_private =
    if allow_private then with_block_private false ∷ with_block_localhost false ∷ [] else []

-- Whether the host is let through, and the host to connect to.
pub data Checked : Type 0 where
  blocked : Reason → Checked
  goes : Str → Checked

abbrev pub or_host : Str → Str → Str
or_host host [] = host
or_host host (c ∷ shown) = c ∷ shown

abbrev pub to_checked : Str → NetfilterResult → Checked
to_checked host (block reason) = blocked reason
to_checked host (pass none) = goes host
to_checked host (pass (some shown)) = goes (or_host host shown)

unfoldable pub check_host : Net → Bool → Bool → Str → ℤ → Checked
check_host net protects allow_private host port =
    if protects
    then to_checked host
        (validate_address net (host_with_port host port) (private_options allow_private))
    else goes host

-- The TLS settings, with a server name where none is given.
abbrev pub named : Str → TlsConfig → TlsConfig
named name c = if text_eq c.server_name [] then record c { server_name = name } else c

abbrev pub tls_or_default : Str → Option TlsConfig → TlsConfig
tls_or_default name none = record { server_name = name; min_version = codes "TLS 1.2" }
tls_or_default name (some c) = named name c

-- The request's host and port, checked.
unfoldable pub validate_endpoint : Str → ℤ → Option CallError
validate_endpoint host port =
    if text_eq host []
    then some (record { code = codes "INVALID_REQUEST"; message = says (codes "host is required") })
    else if ltb_ℤ (pos 0) port
    then (if ltb_ℤ (pos 65535) port
        then some (record {
          code = codes "INVALID_REQUEST";
          message = says (codes "invalid port: " ++ show_int port);
        })
        else none)
    else some (record {
      code = codes "INVALID_REQUEST";
      message = says (codes "invalid port: " ++ show_int port);
    })

abbrev pub ssrf_error : Reason → CallError
ssrf_error r = record { code = codes "SSRF_BLOCKED"; message = because r }

-- tlsVersionString
unfoldable pub tls_version_string : ℕ → Str
tls_version_string version =
    if version == 0x0301
    then codes "TLS 1.0"
    else if version == 0x0302
    then codes "TLS 1.1"
    else if version == 0x0303
    then codes "TLS 1.2"
    else if version == 0x0304
    then codes "TLS 1.3"
    else []

pub record Certificate : Type 0 where
  pub subject : Str
  pub issuer : Str
  pub expiry : Str

-- tls.ConnectionState, with the name of its cipher suite.
pub record TlsState : Type 0 where
  pub version : ℕ
  pub cipher_suite : Str
  pub server_name : Str
  pub certificates : List Certificate
