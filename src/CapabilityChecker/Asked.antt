-- ===== src/CapabilityChecker/Asked.antt =====
-- What a host call asks for, and that the switch of the middleware judges just that.
use reglet_hostlib.Base.{
  ◌≡◌, refl, ◌↔◌, ◌⊎◌, inl, inr, Bool, true, false, Option, none, some, List, if◌then◌else◌,
}
use reglet_hostlib.Base.Text.{Str, codes, text_eq}
use reglet_hostlib.Base.Int.{ℤ, pos, atoi}
use reglet_hostlib.Policy.Engine.{World, Pointer}
use reglet_hostlib.Policy.Cache.{IsCoherent}
use reglet_hostlib.CapabilityChecker.{Checker, CheckError, grants_of}
use reglet_hostlib.CapabilityChecker.Checks.{
  GrantedBy, NetworkAllowed, ExecAllowed, Judged, check_network-Judged, check_connection-Judged,
  check_exec-Judged,
}
use reglet_hostlib.CapabilityChecker.Middleware.{
  Decoders, Url, Verdict, as_response, as_exec_response, judge_address, judge_dns, judge_url,
  judge_http, judge_exec, judge_call, port_of,
}

-- What a call asks for: nothing that is checked, a connection, a command, or a URL that does not
-- parse.
pub data Asked : Type 0 where
  nothing : Asked
  connects : Str → ℤ → Asked
  runs : Str → Asked
  bad_url : Asked

abbrev asks_dns : Option Str → Asked
asks_dns none = nothing
asks_dns (some hostname) = connects hostname (pos 53)

abbrev asks_address : Option (Str × Str) → Asked
asks_address none = nothing
asks_address (some (host, port)) = connects host (atoi port).0

abbrev asks_url : Str ⊎ Url → Asked
asks_url (inl e) = bad_url
asks_url (inr url) = connects url.hostname (atoi (port_of url)).0

abbrev asks_http : Decoders → Option Str → Asked
asks_http d none = nothing
asks_http d (some raw_url) = asks_url (d.parse_url raw_url)

abbrev asks_exec : Option (Str × List Str) → Asked
asks_exec none = nothing
asks_exec (some (command, args)) = runs command

abbrev pub asked : Decoders → Str → Str → Asked
asked d function payload =
    if text_eq function (codes "dns_lookup")
    then asks_dns (d.dns payload)
    else if text_eq function (codes "tcp_connect")
    then asks_address (d.tcp payload)
    else if text_eq function (codes "smtp_connect")
    then asks_address (d.smtp payload)
    else if text_eq function (codes "http_request")
    then asks_http d (d.http payload)
    else if text_eq function (codes "exec_command")
    then asks_exec (d.exec payload)
    else nothing

-- What the plugin's grants allow of it.
abbrev pub AskGranted : World → Option Pointer → Asked → Type 0
AskGranted w g nothing = Unit
AskGranted w g (connects host port) =
    GrantedBy w g (NetworkAllowed w (record { host = host; port = port }))
AskGranted w g (runs command) = GrantedBy w g (ExecAllowed w command)
AskGranted w g bad_url = ⊥

-- The verdict is to let the call through exactly if it is granted.
pub record Judges (w : World) (c : Checker) (Granted : Type 0) (v : Verdict) : Type 0 where
  pub answer : (v.0 ≡ none) ↔ Granted
  pub coherent : IsCoherent w v.1.policy
  pub same_grants : v.1.granted ≡ c.granted

module _ (w : World) (c : Checker) (Granted : Type 0) where
  response-Judges :
      (r : Option CheckError × Checker) → Judged w c Granted r → Judges w c Granted (as_response r)
  response-Judges (none, c') j = record {
    answer = (λ h. j.answer.0 refl, λ g. refl);
    coherent = j.coherent;
    same_grants = j.same_grants;
  }
  response-Judges (some e, c') j = record {
    answer = (λ h. cc h, λ g. cc (j.answer.1 g));
    coherent = j.coherent;
    same_grants = j.same_grants;
  }

  exec_response-Judges :
      (command : Str) (args : List Str) (r : Option CheckError × Checker)
      → Judged w c Granted r
      → Judges w c Granted (as_exec_response command args r)
  exec_response-Judges command args (none, c') j = record {
    answer = (λ h. j.answer.0 refl, λ g. refl);
    coherent = j.coherent;
    same_grants = j.same_grants;
  }
  exec_response-Judges command args (some e, c') j = record {
    answer = (λ h. cc h, λ g. cc (j.answer.1 g));
    coherent = j.coherent;
    same_grants = j.same_grants;
  }

module _ (w : World) (d : Decoders) (plugin : Str) (c : Checker)
    (coherent : IsCoherent w c.policy) where
  abbrev Fair : Asked → Verdict → Type 0
  Fair a v = Judges w c (AskGranted w (grants_of plugin c) a) v

  Fair-if :
      (b : Bool) (a a' : Asked) (v v' : Verdict)
      → Fair a v
      → Fair a' v'
      → Fair (if b then a else a') (if b then v else v')
  Fair-if true a a' v v' j j' = j
  Fair-if false a a' v v' j j' = j'

  open_call : Fair nothing (none, c)
  open_call = record { answer = (λ h. tt, λ g. refl); coherent = coherent; same_grants = refl }

  dns_call : (o : Option Str) → Fair (asks_dns o) (judge_dns w plugin o c)
  dns_call none = open_call
  dns_call (some hostname) =
      response-Judges w c _ _
        (check_network-Judged w plugin c coherent (record { host = hostname; port = pos 53 }))

  address_call : (o : Option (Str × Str)) → Fair (asks_address o) (judge_address w plugin o c)
  address_call none = open_call
  address_call (some (host, port)) =
      response-Judges w c _ _
        (check_network-Judged w plugin c coherent (record { host = host; port = (atoi port).0 }))

  url_call : (u : Str ⊎ Url) → Fair (asks_url u) (judge_url w plugin u c)
  url_call (inl e) = record {
    answer = (λ h. cc h, λ g. absurd g);
    coherent = coherent;
    same_grants = refl;
  }
  url_call (inr url) =
      response-Judges w c _ _
        (check_connection-Judged w plugin c coherent url.hostname (atoi (port_of url)).0)

  http_call : (o : Option Str) → Fair (asks_http d o) (judge_http w d plugin o c)
  http_call none = open_call
  http_call (some raw_url) = url_call (d.parse_url raw_url)

  exec_call : (o : Option (Str × List Str)) → Fair (asks_exec o) (judge_exec w plugin o c)
  exec_call none = open_call
  exec_call (some (command, args)) =
      exec_response-Judges w c _ command args _
        (check_exec-Judged w plugin c coherent (record { command = command }))

  pub judge_call-Fair :
      (function payload : Str)
      → Fair (asked d function payload) (judge_call w d plugin function payload c)
  unfolding judge_call
  judge_call-Fair function payload = Fair-if _ _ _ _ _ (dns_call (d.dns payload)) (
      Fair-if _ _ _ _ _ (address_call (d.tcp payload)) (
        Fair-if _ _ _ _ _ (address_call (d.smtp payload)) (
          Fair-if _ _ _ _ _ (http_call (d.http payload))
            (Fair-if _ _ _ _ _ (exec_call (d.exec payload)) open_call))))
