-- ===== src/HostFunctions/Examples.antt =====
-- Tests of the host functions, and their theorems at concrete inputs.
use reglet_hostlib.Base.{
  ◌≡◌, refl, inl, true, false, none, some, [], ◌∷◌, any, arith, if◌then◌else◌,
}
use reglet_hostlib.Base.Text.{Str, codes, text_eq}
use reglet_hostlib.Base.Int.{pos, decimal_digits}
use reglet_hostlib.ExecSecurity.{to_upper}
use reglet_hostlib.Netutil.Address.{
  ip4, ip6, Net, Lookup, found, is_loopback, is_private, is_link_local_unicast, is_multicast,
  is_unspecified,
}
use reglet_hostlib.Netutil.Netfilter.{
  private_blocked, parse_address, apply_options as apply_filters, check_ip_security_restrictions,
  validate_host, validate_ip, check_host_lists, check_port_restrictions, resolve_and_validate_ip,
  validate_with, validate_address, matches_pattern, cidr_match,
}
use reglet_hostlib.Netutil.LimitedReader.{IoError}
use reglet_hostlib.HostFunctions.{Target, because, check_host, validate_endpoint}
use reglet_hostlib.HostFunctions.Tcp
use reglet_hostlib.HostFunctions.Tcp.{
  TcpConnectRequest, with_tcp_ssrf_protection, perform_tcp_connect, tcp_target,
}
use reglet_hostlib.HostFunctions.Tcp.Dialing.{Reaches as TcpReaches, perform_tcp_connect-Reaches}
use reglet_hostlib.HostFunctions.Smtp
use reglet_hostlib.HostFunctions.Smtp.{SmtpConnectRequest, perform_smtp_connect, Machine}
use reglet_hostlib.HostFunctions.Smtp.Dialing.{Reaches as SmtpReaches, perform_smtp_connect-Reaches}
use reglet_hostlib.HostFunctions.Http
use reglet_hostlib.HostFunctions.Http.{
  HttpRequest, Head, Call, Client, stop_after, perform_http_request, read_http_response,
  execute_http_request, validate_http_request, apply_request_config, create_http_client,
}
use reglet_hostlib.Netutil.LimitedReader.Streams.{with_last}
use reglet_hostlib.Netutil.LimitedReader.Examples.{known_reader, known_reader-IsStream}
use reglet_hostlib.HostFunctions.Http.Bodies.{Delivers, read_http_response-Delivers}
use reglet_hostlib.HostFunctions.Http.Calls.{Goes, perform_http_request-Goes}
use reglet_hostlib.HostFunctions.Dns
use reglet_hostlib.HostFunctions.Dns.{
  DnsLookupRequest, Network, perform_dns_lookup, lookup_by_type, host_records, skips,
}
use reglet_hostlib.HostFunctions.Dns.Records.{Lists, perform_dns_lookup-Lists}

-- A network that knows a public name and a private one.
abbrev lookup : Str → Lookup
lookup host =
    if text_eq host (codes "site")
    then found (ip4 93 184 216 34 ∷ [])
    else found (ip4 10 0 0 1 ∷ [])

abbrev net : Net
net = record {
  parse_ip = λ host. none;
  parse_cidr = λ p. none;
  lookup_ip = lookup;
  ip_string = λ ip. codes "9.9";
}

filter : Unit {0}
unfolding validate_address validate_with validate_host validate_ip check_host_lists
    check_port_restrictions resolve_and_validate_ip check_ip_security_restrictions matches_pattern
    cidr_match apply_filters parse_address is_loopback is_private is_link_local_unicast is_multicast
    is_unspecified text_eq any check_host decimal_digits validate_endpoint
filter = tt

abbrev tcp_dialer : Target → Tcp.Dialed
tcp_dialer t = Tcp.connected t.address (pos 3) none

abbrev tcp_request : Str → TcpConnectRequest
tcp_request host = record {
  tls_config = none;
  host = host;
  port = pos 443;
  timeout = pos 0;
  use_tls = false;
}

abbrev tcp_to : Target
tcp_to = record { address = codes "9.9:443"; timeout = pos 5000000000; tls = none }

tcp_tests :
    ((perform_tcp_connect net tcp_dialer (some false) (tcp_request (codes "site")) []).target
      ≡ some tcp_to)
    × ((perform_tcp_connect net tcp_dialer
          (some false)
          (tcp_request (codes "home"))
          []).response.error
        ≡ some (record { code = codes "SSRF_BLOCKED"; message = because private_blocked }))
unfolding filter perform_tcp_connect Tcp.apply_options Tcp.context_config Tcp.default_tcp_config
    tcp_target
tcp_tests = (refl, refl)

perform_tcp_connect-Reaches_example : TcpReaches net (tcp_request (codes "site")) tcp_to
perform_tcp_connect-Reaches_example =
    perform_tcp_connect-Reaches net (λ ip e. cc e) tcp_dialer (tcp_request (codes "site")) tcp_to
      (some false) [] refl tcp_tests.0

abbrev machine : Machine
machine = record {
  dial_tls = λ t. Smtp.banner_failed [] (pos 0);
  dial_plain = λ t. Smtp.client_ready (pos 4);
  start_tls = λ t c. Smtp.upgraded none;
}

abbrev smtp_request : SmtpConnectRequest
smtp_request = record {
  host = codes "site";
  port = pos 587;
  use_tls = false;
  use_starttls = true;
  timeout = pos 1;
}

abbrev smtp_to : Target
smtp_to = record { address = codes "9.9:587"; timeout = pos 1000000; tls = none }

smtp_test : (perform_smtp_connect net machine (some false) smtp_request []).target ≡ some smtp_to
unfolding filter perform_smtp_connect Smtp.apply_options Smtp.context_config
    Smtp.default_smtp_config
smtp_test = refl

perform_smtp_connect-Reaches_example : SmtpReaches net smtp_request smtp_to
perform_smtp_connect-Reaches_example =
    perform_smtp_connect-Reaches net (λ ip e. cc e) machine smtp_request smtp_to (some false) []
      refl smtp_test

abbrev show_error : IoError → Str
show_error e = codes "?"

abbrev head : Head
head = record { status_code = pos 200; headers = []; proto = codes "HTTP/2.0"; latency_ms = pos 1 }

read_http_response-Delivers_example :
    Delivers with_last head
      (codes "hello")
      5
      (read_http_response show_error known_reader 6 512 head (codes "hello") 5)
read_http_response-Delivers_example =
    read_http_response-Delivers show_error with_last (λ body. body) known_reader 6 512 head
      (codes "hello") 5 known_reader-IsStream (omega arith) (omega arith)

abbrev http_request : HttpRequest
http_request = record {
  headers = [];
  follow_redirects = none;
  method = [];
  url = codes "https://site/";
  body = [];
  timeout = pos 0;
  max_redirects = pos 2;
}

abbrev http_call : Call
http_call = record {
  method = codes "GET";
  url = codes "https://site/";
  headers = [];
  body = [];
  client = record {
    timeout = pos 30000000000;
    secure_dialer = some (record { allow_private_network = false; timeout = pos 30000000000 });
    redirects = stop_after (pos 2);
  };
}

http_test :
    (perform_http_request show_error known_reader 6 512
      (λ s. s)
      (λ c. Http.response head (codes "hello"))
      (some false)
      http_request
      []).call
    ≡ some http_call
unfolding perform_http_request Http.apply_options Http.context_config Http.default_http_config
    execute_http_request apply_request_config validate_http_request create_http_client to_upper
    text_eq any
http_test = refl

perform_http_request-Goes_example : Goes (some false) http_request http_call
perform_http_request-Goes_example =
    perform_http_request-Goes show_error known_reader 6 512 (λ s. s)
      (λ c. Http.response head (codes "hello")) http_request http_call (some false) [] http_test

abbrev dns : Network
dns = record {
  resolver = λ ns timeout. record {
    lookup_ip_addr = λ host. Dns.found (ip4 1 2 3 4 ∷ ip6 [] ∷ []);
    lookup_cname = λ host. Dns.failed [];
    lookup_mx = λ host. Dns.failed [];
    lookup_txt = λ host. Dns.failed [];
    lookup_ns = λ host. Dns.failed [];
  };
  ip_string = λ ip. if Dns.is_v4 ip then codes "v4" else codes "v6";
}

abbrev query : Str → DnsLookupRequest
query record_type = record {
  hostname = codes "site";
  record_type = record_type;
  nameserver = [];
  timeout = pos 0;
}

-- The type in lower case is looked up, but not sorted out.
dns_tests :
    ((perform_dns_lookup (λ s. s) dns (query (codes "A")) []).records ≡ codes "v4" ∷ [])
    × ((perform_dns_lookup (λ s. s) dns (query (codes "AAAA")) []).records ≡ codes "v6" ∷ [])
    × ((perform_dns_lookup (λ s. s) dns (query (codes "a")) []).records
        ≡ codes "v4" ∷ codes "v6" ∷ [])
unfolding perform_dns_lookup lookup_by_type host_records to_upper text_eq any
dns_tests = (refl, refl, refl)

upper_a : to_upper (λ s. s) (codes "a") ≡ codes "A"
unfolding to_upper any
upper_a = refl

perform_dns_lookup-Lists_example :
    Lists dns.ip_string
      (codes "a")
      (ip4 1 2 3 4 ∷ ip6 [] ∷ [])
      (perform_dns_lookup (λ s. s) dns (query (codes "a")) [])
perform_dns_lookup-Lists_example =
    perform_dns_lookup-Lists (λ s. s) dns (query (codes "a")) [] (ip4 1 2 3 4 ∷ ip6 [] ∷ [])
      (inl upper_a) refl
