-- ===== src/HostFunctions/Http.antt =====
-- http.go: an HTTP request for a plugin. Package net/http is a parameter, which is given the request and
-- the client, and answers an error by its text and what it is, or a response with its body.
pub mod Bodies
pub mod Calls
use reglet_hostlib.Base.{
  ℕ, zero, suc, ◌*◌, ◌^◌, ◌≤◌, Bool, true, false, ◌||◌, not, Option, none, some, List, [], ◌∷◌, leb,
  length, if◌then◌else◌,
}
use reglet_hostlib.Base.Text.{Str, codes, text_eq, contains}
use reglet_hostlib.Base.Int.{ℤ, pos, pos_part, ltb_ℤ, milliseconds}
use reglet_hostlib.Base.Map.{Map}
use reglet_hostlib.ExecSecurity.{to_upper}
use reglet_hostlib.Netutil.LimitedReader.{
  IoError, eof, io_error, size_limit_exceeded, Reader, ReadResult, new_limited_reader, read_all,
}
use reglet_hostlib.HostFunctions.{says, CallError}

pub record HttpRequest : Type 0 where
  pub headers : Map Str
  pub follow_redirects : Option Bool
  pub method : Str
  pub url : Str
  pub body : List ℕ
  pub timeout : ℤ
  pub max_redirects : ℤ

pub record HttpResponse : Type 0 where
  pub headers : Map (List Str)
  pub error : Option CallError
  pub proto : Str
  pub body : List ℕ
  pub latency_ms : ℤ
  pub status_code : ℤ
  pub body_truncated : Bool

abbrev pub empty_response : HttpResponse
empty_response = record {
  headers = [];
  error = none;
  proto = [];
  body = [];
  latency_ms = pos 0;
  status_code = pos 0;
  body_truncated = false;
}

pub record HttpConfig : Type 0 where
  pub timeout : ℤ
  pub max_redirects : ℤ
  pub max_body_size : ℕ
  pub follow_redirects : Bool
  pub ssrf_protection : Bool
  pub allow_private : Bool

unfoldable pub default_http_config : HttpConfig
default_http_config = record {
  timeout = pos (30 * 10 ^ 9);
  max_redirects = pos 10;
  max_body_size = 10 * 1024 * 1024;
  follow_redirects = true;
  ssrf_protection = false;
  allow_private = false;
}

pub data HttpOption : Type 0 where
  with_http_request_timeout : ℤ → HttpOption
  with_http_max_redirects : ℤ → HttpOption
  with_http_follow_redirects : Bool → HttpOption
  with_http_max_body_size : ℤ → HttpOption
  with_http_ssrf_protection : Bool → HttpOption

unfoldable pub apply_option : HttpOption → HttpConfig → HttpConfig
apply_option (with_http_request_timeout d) c =
    if ltb_ℤ (pos 0) d then record c { timeout = d } else c
apply_option (with_http_max_redirects n) c =
    if ltb_ℤ n (pos 0) then c else record c { max_redirects = n }
apply_option (with_http_follow_redirects follow) c = record c { follow_redirects = follow }
apply_option (with_http_max_body_size size) c =
    if ltb_ℤ (pos 0) size then record c { max_body_size = pos_part size } else c
apply_option (with_http_ssrf_protection allow) c = record c {
  ssrf_protection = true;
  allow_private = allow;
}

unfoldable pub apply_options : List HttpOption → HttpConfig → HttpConfig
apply_options [] c = c
apply_options (o ∷ os) c = apply_options os (apply_option o c)

-- The protection that the context asks for, by its value ssrf_allow_private.
unfoldable pub context_config : Option Bool → HttpConfig
unfolding apply_option
context_config none = default_http_config
context_config (some allow) = apply_option (with_http_ssrf_protection allow) default_http_config

abbrev pub given_follow : Option Bool → HttpConfig → HttpConfig
given_follow none c = c
given_follow (some follow) c = record c { follow_redirects = follow }

-- applyRequestConfig
unfoldable pub apply_request_config : HttpRequest → HttpConfig → HttpConfig
apply_request_config req c =
    let timed =
      (if ltb_ℤ (pos 0) req.timeout then record c { timeout = milliseconds req.timeout } else c) in
    given_follow req.follow_redirects (
      if ltb_ℤ (pos 0) req.max_redirects
      then record timed { max_redirects = req.max_redirects }
      else timed)

-- validateHTTPRequest: the error, or the request with its method.
unfoldable pub validate_http_request : HttpRequest → Option HttpRequest
validate_http_request req =
    if text_eq req.url []
    then none
    else if text_eq req.method []
    then some (record req { method = codes "GET" })
    else some req

-- What CheckRedirect is set to; `client_default` where it is left nil.
pub data RedirectPolicy : Type 0 where
  use_last_response : RedirectPolicy
  stop_after : ℤ → RedirectPolicy
  client_default : RedirectPolicy

-- The secure dialer of the transport, with its AllowPrivateNetwork and Timeout.
pub record DialerSettings : Type 0 where
  pub allow_private_network : Bool
  pub timeout : ℤ

pub record Client : Type 0 where
  pub timeout : ℤ
  pub secure_dialer : Option DialerSettings
  pub redirects : RedirectPolicy

-- createHTTPClient
unfoldable pub create_http_client : HttpConfig → Client
create_http_client c = record {
  timeout = c.timeout;
  secure_dialer =
      if c.ssrf_protection
      then some (record { allow_private_network = c.allow_private; timeout = c.timeout })
      else none;
  redirects =
      if not c.follow_redirects
      then use_last_response
      else if ltb_ℤ (pos 0) c.max_redirects
      then stop_after c.max_redirects
      else client_default;
}

-- What CheckRedirect answers after so many requests: `true` to go on. The default of net/http
-- stops after 10.
unfoldable pub follows : RedirectPolicy → ℕ → Bool
follows use_last_response via = false
follows (stop_after n) via = not (leb (pos_part n) via)
follows client_default via = not (leb 10 via)

-- A failure of the request or of Do, with the deadline of the context and errors.As.
pub record Failed : Type 0 where
  pub message : Str
  pub deadline_exceeded : Bool
  pub is_ssrf_blocked : Bool
  pub latency_ms : ℤ

-- handleHTTPError
unfoldable pub http_error_code : Failed → Str
http_error_code f =
    if contains f.message (codes "timeout") || f.deadline_exceeded
    then codes "TIMEOUT"
    else if contains f.message (codes "redirect")
    then codes "TOO_MANY_REDIRECTS"
    else if contains f.message (codes "no such host")
    then codes "HOST_NOT_FOUND"
    else if contains f.message (codes "connection refused")
    then codes "CONNECTION_REFUSED"
    else if f.is_ssrf_blocked
    then codes "SSRF_BLOCKED"
    else codes "REQUEST_FAILED"

abbrev pub failure_response : Failed → HttpResponse
failure_response f = record empty_response {
  latency_ms = f.latency_ms;
  error = some (record { code = http_error_code f; message = says f.message });
}

-- The head of a response of net/http.
pub record Head : Type 0 where
  pub status_code : ℤ
  pub headers : Map (List Str)
  pub proto : Str
  pub latency_ms : ℤ

abbrev pub headed : Head → HttpResponse
headed h = record empty_response {
  status_code = h.status_code;
  headers = h.headers;
  latency_ms = h.latency_ms;
}

-- The error of a read that is not the limit's: its text is a parameter.
abbrev pub read_failure : Head → Str → HttpResponse
read_failure h message = record (headed h) {
  error = some (record { code = codes "READ_BODY_FAILED"; message = says message });
}

abbrev pub body_response : (IoError → Str) → Head → ReadResult → HttpResponse
body_response show h (bytes, none) = record (headed h) { body = bytes; proto = h.proto }
body_response show h (bytes, some (size_limit_exceeded limit read)) = record (headed h) {
  body = bytes;
  body_truncated = true;
  proto = h.proto;
}
body_response show h (bytes, some eof) = read_failure h (show eof)
body_response show h (bytes, some (io_error n)) = read_failure h (show (io_error n))

module _ {S : Type 0} (show : IoError → Str) (reader : Reader S) where
  -- readHTTPResponse, where io.ReadAll reads with buffers of `room` bytes; `none` if the fuel runs
  -- out.
  unfoldable pub read_http_response : ℕ → ℕ → Head → S → ℕ → Option HttpResponse
  read_http_response fuel room h s max_body_size =
      elim (read_all reader fuel room (new_limited_reader s max_body_size)) [
        | none ↦ none
        | some result ↦ some (body_response show h result)
      ]

-- What is handed to net/http.
pub record Call : Type 0 where
  pub method : Str
  pub url : Str
  pub headers : Map Str
  pub body : List ℕ
  pub client : Client

-- NewRequestWithContext fails, Do fails, or there is a response with its body.
pub data Answer (S : Type 0) : Type 0 where
  bad_request : Str → Answer S
  no_response : Failed → Answer S
  response : Head → S → Answer S

pub record Performed : Type 0 where
  pub call : Option Call
  pub result : Option HttpResponse

abbrev pub invalid : Str → HttpResponse
invalid message = record empty_response {
  error = some (record { code = codes "INVALID_REQUEST"; message = says message });
}

module _ {S : Type 0} (show : IoError → Str) (reader : Reader S) (fuel room : ℕ)
    (unicode : Str → Str) (do_call : Call → Answer S) where
  abbrev pub answered : HttpConfig → Answer S → Option HttpResponse
  answered c (bad_request message) = some (invalid message)
  answered c (no_response f) = some (failure_response f)
  answered c (response h s) = read_http_response show reader fuel room h s c.max_body_size

  -- executeHTTPRequest
  unfoldable pub execute_http_request : HttpRequest → HttpConfig → Performed
  execute_http_request req c =
      let call : Call = record {
        method = to_upper unicode req.method;
        url = req.url;
        headers = req.headers;
        body = req.body;
        client = create_http_client c;
      } in
      record { call = some call; result = answered c (do_call call) }

  abbrev pub perform_valid : HttpConfig → Option HttpRequest → Performed
  perform_valid c none = record { call = none; result = some (invalid (codes "URL is required")) }
  perform_valid c (some req) = execute_http_request req c

  -- PerformHTTPRequest
  unfoldable pub perform_http_request : Option Bool → HttpRequest → List HttpOption → Performed
  perform_http_request private req opts =
      perform_valid (apply_request_config req (apply_options opts (context_config private)))
        (validate_http_request req)
