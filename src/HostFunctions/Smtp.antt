-- ===== src/HostFunctions/Smtp.antt =====
-- smtp.go: a test of an SMTP server. The connections and the upgrade to TLS are made by a parameter.
pub mod Dialing
use reglet_hostlib.Base.{
  ℕ, ◌*◌, ◌^◌, Bool, true, false, Option, none, some, List, [], ◌∷◌, if◌then◌else◌,
}
use reglet_hostlib.Base.Text.{Str, codes, contains, trim_space}
use reglet_hostlib.Base.Int.{ℤ, pos, ltb_ℤ, milliseconds}
use reglet_hostlib.Netutil.Address.{Net}
use reglet_hostlib.HostFunctions.{
  says, CallError, TlsConfig, Target, host_with_port, Checked, blocked, goes, check_host,
  tls_or_default, validate_endpoint, ssrf_error, tls_version_string, TlsState,
}

pub record SmtpConnectRequest : Type 0 where
  pub host : Str
  pub port : ℤ
  pub use_tls : Bool
  pub use_starttls : Bool
  pub timeout : ℤ

pub record SmtpConnectResponse : Type 0 where
  pub error : Option CallError
  pub banner : Str
  pub tls_version : Str
  pub tls_cipher_suite : Str
  pub tls_server_name : Str
  pub latency_ms : ℤ
  pub connected : Bool

abbrev pub empty_response : SmtpConnectResponse
empty_response = record {
  error = none;
  banner = [];
  tls_version = [];
  tls_cipher_suite = [];
  tls_server_name = [];
  latency_ms = pos 0;
  connected = false;
}

pub record SmtpConfig : Type 0 where
  pub tls_config : Option TlsConfig
  pub timeout : ℤ
  pub ssrf_protection : Bool
  pub allow_private : Bool

unfoldable pub default_smtp_config : SmtpConfig
default_smtp_config = record {
  tls_config = none;
  timeout = pos (30 * 10 ^ 9);
  ssrf_protection = false;
  allow_private = false;
}

pub data SmtpOption : Type 0 where
  with_smtp_timeout : ℤ → SmtpOption
  with_smtp_tls_config : Option TlsConfig → SmtpOption
  with_smtp_ssrf_protection : Bool → SmtpOption

unfoldable pub apply_option : SmtpOption → SmtpConfig → SmtpConfig
apply_option (with_smtp_timeout d) c = if ltb_ℤ (pos 0) d then record c { timeout = d } else c
apply_option (with_smtp_tls_config settings) c = record c { tls_config = settings }
apply_option (with_smtp_ssrf_protection allow) c = record c {
  ssrf_protection = true;
  allow_private = allow;
}

unfoldable pub apply_options : List SmtpOption → SmtpConfig → SmtpConfig
apply_options [] c = c
apply_options (o ∷ os) c = apply_options os (apply_option o c)

-- The protection that the context asks for, by its value ssrf_allow_private.
unfoldable pub context_config : Option Bool → SmtpConfig
unfolding apply_option
context_config none = default_smtp_config
context_config (some allow) = apply_option (with_smtp_ssrf_protection allow) default_smtp_config

abbrev pub request_timeout : SmtpConnectRequest → SmtpConfig → SmtpConfig
request_timeout req c =
    if ltb_ℤ (pos 0) req.timeout then record c { timeout = milliseconds req.timeout } else c

-- How a connection with TLS went: the dial, the first read, and the state.
pub data TlsSession : Type 0 where
  dial_failed : Str → ℤ → TlsSession
  banner_failed : Str → ℤ → TlsSession
  greeted : List ℕ → TlsState → ℤ → TlsSession

-- How a plain connection went: the dial, and the greeting.
pub data PlainSession : Type 0 where
  dial_failed : Str → ℤ → PlainSession
  client_failed : Str → ℤ → PlainSession
  client_ready : ℤ → PlainSession

pub data Upgrade : Type 0 where
  upgrade_failed : Str → Upgrade
  upgraded : Option TlsState → Upgrade

pub record Machine : Type 0 where
  pub dial_tls : Target → TlsSession
  pub dial_plain : Target → PlainSession
  pub start_tls : Target → TlsConfig → Upgrade

-- classifySMTPError
unfoldable pub classify_smtp_error : Str → CallError
classify_smtp_error message = record {
  message = says message;
  code =
      if contains message (codes "timeout")
      then codes "TIMEOUT"
      else if contains message (codes "refused")
      then codes "CONNECTION_REFUSED"
      else if contains message (codes "no such host")
      then codes "HOST_NOT_FOUND"
      else if contains message (codes "certificate")
      then codes "TLS_CERTIFICATE_ERROR"
      else codes "CONNECTION_FAILED";
}

abbrev pub failure : CallError → ℤ → SmtpConnectResponse
failure e latency = record empty_response { error = some e; latency_ms = latency }

abbrev pub step_error : Str → Str → CallError
step_error code message = record { code = code; message = says message }

abbrev pub with_state : Option TlsState → SmtpConnectResponse → SmtpConnectResponse
with_state none r = r
with_state (some s) r = record r {
  tls_version = tls_version_string s.version;
  tls_cipher_suite = s.cipher_suite;
  tls_server_name = s.server_name;
}

-- connectWithTLS, behind the dialer
unfoldable pub tls_response : TlsSession → SmtpConnectResponse
tls_response (TlsSession.dial_failed message latency) =
    failure (classify_smtp_error message) latency
tls_response (banner_failed message latency) =
    failure (step_error (codes "READ_BANNER_FAILED") message) latency
tls_response (greeted banner s latency) =
    with_state (some s)
      (record empty_response { connected = true; banner = trim_space banner; latency_ms = latency })

abbrev pub upgrade_response : ℤ → Upgrade → SmtpConnectResponse
upgrade_response latency (upgrade_failed message) =
    failure (step_error (codes "STARTTLS_FAILED") message) latency
upgrade_response latency (upgraded s) =
    with_state s (record empty_response { connected = true; latency_ms = latency })

-- connectPlain, behind the dialer
unfoldable pub plain_response :
    Machine → SmtpConnectRequest → SmtpConfig → Target → PlainSession → SmtpConnectResponse
plain_response m req c t (PlainSession.dial_failed message latency) =
    failure (classify_smtp_error message) latency
plain_response m req c t (client_failed message latency) =
    failure (step_error (codes "SMTP_CLIENT_FAILED") message) latency
plain_response m req c t (client_ready latency) =
    if req.use_starttls
    then upgrade_response latency (m.start_tls t (tls_or_default req.host c.tls_config))
    else record empty_response { connected = true; latency_ms = latency }

-- The target that was dialed, if any, and the response.
pub record Performed : Type 0 where
  pub target : Option Target
  pub response : SmtpConnectResponse

abbrev pub refusal : CallError → Performed
refusal e = record { target = none; response = record empty_response { error = some e } }

abbrev pub smtp_target : SmtpConnectRequest → SmtpConfig → Str → Option TlsConfig → Target
smtp_target req c host settings = record {
  address = host_with_port host req.port;
  timeout = c.timeout;
  tls = settings;
}

abbrev pub connect_with_tls : Machine → Target → Performed
connect_with_tls m t = record { target = some t; response = tls_response (m.dial_tls t) }

abbrev pub connect_plain : Machine → SmtpConnectRequest → SmtpConfig → Target → Performed
connect_plain m req c t = record {
  target = some t;
  response = plain_response m req c t (m.dial_plain t);
}

abbrev pub connect_checked : Machine → SmtpConnectRequest → SmtpConfig → Checked → Performed
connect_checked m req c (blocked r) = refusal (ssrf_error r)
connect_checked m req c (goes host) =
    if req.use_tls
    then connect_with_tls m (smtp_target req c host (some (tls_or_default req.host c.tls_config)))
    else connect_plain m req c (smtp_target req c host none)

abbrev pub connect_valid :
    Net → Machine → SmtpConnectRequest → SmtpConfig → Option CallError → Performed
connect_valid net m req c (some e) = refusal e
connect_valid net m req c none =
    connect_checked m req c (check_host net c.ssrf_protection c.allow_private req.host req.port)

-- PerformSMTPConnect
unfoldable pub perform_smtp_connect :
    Net → Machine → Option Bool → SmtpConnectRequest → List SmtpOption → Performed
perform_smtp_connect net m private req opts =
    connect_valid net m req (request_timeout req (apply_options opts (context_config private)))
      (validate_endpoint req.host req.port)
