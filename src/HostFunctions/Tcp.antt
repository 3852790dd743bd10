-- ===== src/HostFunctions/Tcp.antt =====
-- tcp.go: a test of a TCP connection. The connection is made by a parameter, which tells a failure by
-- its text, and whether the deadline of the caller's context has passed then.
pub mod Dialing
use reglet_hostlib.Base.{
  ℕ, ◌*◌, ◌^◌, Bool, true, false, ◌&&◌, ◌||◌, not, Option, none, some, List, [], ◌∷◌, if◌then◌else◌,
}
use reglet_hostlib.Base.Text.{Str, codes, text_eq, contains}
use reglet_hostlib.Base.Int.{ℤ, pos, ltb_ℤ, milliseconds}
use reglet_hostlib.Netutil.Address.{Net}
use reglet_hostlib.HostFunctions.{
  says, CallError, TlsConfig, Target, host_with_port, Checked, blocked, goes, check_host,
  tls_or_default, validate_endpoint, ssrf_error, tls_version_string, Certificate, TlsState,
}

pub record TcpConnectRequest : Type 0 where
  pub tls_config : Option TlsConfig
  pub host : Str
  pub port : ℤ
  pub timeout : ℤ
  pub use_tls : Bool

pub record TcpConnectResponse : Type 0 where
  pub error : Option CallError
  pub remote_addr : Str
  pub tls_version : Str
  pub tls_cipher_suite : Str
  pub tls_server_name : Str
  pub tls_cert_subject : Str
  pub tls_cert_issuer : Str
  pub tls_cert_expiry : Str
  pub latency_ms : ℤ
  pub connected : Bool

abbrev pub empty_response : TcpConnectResponse
empty_response = record {
  error = none;
  remote_addr = [];
  tls_version = [];
  tls_cipher_suite = [];
  tls_server_name = [];
  tls_cert_subject = [];
  tls_cert_issuer = [];
  tls_cert_expiry = [];
  latency_ms = pos 0;
  connected = false;
}

pub record TcpConfig : Type 0 where
  pub timeout : ℤ
  pub ssrf_protection : Bool
  pub allow_private : Bool

unfoldable pub default_tcp_config : TcpConfig
default_tcp_config = record {
  timeout = pos (5 * 10 ^ 9);
  ssrf_protection = false;
  allow_private = false;
}

pub data TcpOption : Type 0 where
  with_tcp_timeout : ℤ → TcpOption
  with_tcp_ssrf_protection : Bool → TcpOption

unfoldable pub apply_option : TcpOption → TcpConfig → TcpConfig
apply_option (with_tcp_timeout d) c = if ltb_ℤ (pos 0) d then record c { timeout = d } else c
apply_option (with_tcp_ssrf_protection allow) c = record c {
  ssrf_protection = true;
  allow_private = allow;
}

unfoldable pub apply_options : List TcpOption → TcpConfig → TcpConfig
apply_options [] c = c
apply_options (o ∷ os) c = apply_options os (apply_option o c)

-- The protection that the context asks for, by its value ssrf_allow_private.
unfoldable pub context_config : Option Bool → TcpConfig
unfolding apply_option
context_config none = default_tcp_config
context_config (some allow) = apply_option (with_tcp_ssrf_protection allow) default_tcp_config

abbrev pub request_timeout : TcpConnectRequest → TcpConfig → TcpConfig
request_timeout req c =
    if ltb_ℤ (pos 0) req.timeout then record c { timeout = milliseconds req.timeout } else c

-- The server name of getTLSConfig.
abbrev pub server_name : Str → Str → Str
server_name host original =
    if not (text_eq original []) && not (text_eq original host) then original else host

-- connectTCP, up to the dialer; `host` is the resolved one.
unfoldable pub tcp_target : TcpConnectRequest → TcpConfig → Str → Target
tcp_target req c host = record {
  address = host_with_port host req.port;
  timeout = c.timeout;
  tls =
      if req.use_tls
      then some (tls_or_default (server_name host req.host) req.tls_config)
      else none;
}

pub data Dialed : Type 0 where
  failed : Str → Bool → ℤ → Dialed
  connected : Str → ℤ → Option TlsState → Dialed

-- handleTCPError
unfoldable pub tcp_error_code : Str → Bool → Str
tcp_error_code message deadline =
    if contains message (codes "timeout") || deadline
    then codes "TIMEOUT"
    else if contains message (codes "refused")
    then codes "CONNECTION_REFUSED"
    else if contains message (codes "no such host")
    then codes "HOST_NOT_FOUND"
    else if contains message (codes "certificate")
    then codes "TLS_ERROR"
    else codes "CONNECTION_FAILED"

abbrev pub with_certificates : List Certificate → TcpConnectResponse → TcpConnectResponse
with_certificates [] r = r
with_certificates (c ∷ cs) r = record r {
  tls_cert_subject = c.subject;
  tls_cert_issuer = c.issuer;
  tls_cert_expiry = c.expiry;
}

abbrev pub with_tls : Option TlsState → TcpConnectResponse → TcpConnectResponse
with_tls none r = r
with_tls (some s) r = with_certificates s.certificates (record r {
  tls_version = tls_version_string s.version;
  tls_cipher_suite = s.cipher_suite;
  tls_server_name = s.server_name;
})

-- handleTCPError and createTCPResponse
unfoldable pub tcp_response : Dialed → TcpConnectResponse
unfolding tcp_error_code
tcp_response (failed message deadline latency) = record empty_response {
  latency_ms = latency;
  error = some (record { code = tcp_error_code message deadline; message = says message });
}
tcp_response (connected remote latency state) =
    with_tls state
      (record empty_response { connected = true; remote_addr = remote; latency_ms = latency })

-- The target that was dialed, if any, and the response.
pub record Performed : Type 0 where
  pub target : Option Target
  pub response : TcpConnectResponse

abbrev pub refusal : CallError → Performed
refusal e = record { target = none; response = record empty_response { error = some e } }

abbrev pub dial : (Target → Dialed) → Target → Performed
dial dialer t = record { target = some t; response = tcp_response (dialer t) }

abbrev pub connect_checked : (Target → Dialed) → TcpConnectRequest → TcpConfig → Checked → Performed
connect_checked dialer req c (blocked r) = refusal (ssrf_error r)
connect_checked dialer req c (goes host) = dial dialer (tcp_target req c host)

abbrev pub connect_valid :
    Net → (Target → Dialed) → TcpConnectRequest → TcpConfig → Option CallError → Performed
connect_valid net dialer req c (some e) = refusal e
connect_valid net dialer req c none =
    connect_checked dialer req c
      (check_host net c.ssrf_protection c.allow_private req.host req.port)

-- PerformTCPConnect
unfoldable pub perform_tcp_connect :
    Net → (Target → Dialed) → Option Bool → TcpConnectRequest → List TcpOption → Performed
perform_tcp_connect net dialer private req opts =
    connect_valid net dialer req (request_timeout req (apply_options opts (context_config private)))
      (validate_endpoint req.host req.port)
