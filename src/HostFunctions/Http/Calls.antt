-- ===== src/HostFunctions/Http/Calls.antt =====
-- With which client a request goes out.
use mathlib.Core.Path.{subst}
use reglet_hostlib.Base.{
  ℕ, ◌≡◌, refl, sym, ap, ◌∙◌, ◌≢◌, Bool, true, false, not, Option, none, some, List, [], ◌∷◌, arith,
  leb, Bool-cases, inl, inr, if◌then◌else◌,
}
use reglet_hostlib.Base.Text.{Str, codes, text_eq, text_eq_iff}
use reglet_hostlib.Base.Int.{pos}
use reglet_hostlib.Netutil.LimitedReader.{IoError, Reader}
use reglet_hostlib.HostFunctions.Guarding.{Protects}
use reglet_hostlib.HostFunctions.Http.{
  HttpRequest, HttpConfig, HttpOption, with_http_request_timeout, with_http_max_redirects,
  with_http_follow_redirects, with_http_max_body_size, with_http_ssrf_protection,
  default_http_config, apply_option, apply_options, context_config, apply_request_config,
  validate_http_request, Client, create_http_client, follows, Call, Answer, perform_valid,
  execute_http_request, perform_http_request,
}

abbrev pub last_protection : List HttpOption → Option Bool → Option Bool
last_protection [] p = p
last_protection (with_http_ssrf_protection allow ∷ os) p = last_protection os (some allow)
last_protection (with_http_request_timeout d ∷ os) p = last_protection os p
last_protection (with_http_max_redirects n ∷ os) p = last_protection os p
last_protection (with_http_follow_redirects follow ∷ os) p = last_protection os p
last_protection (with_http_max_body_size size ∷ os) p = last_protection os p

abbrev Guarded : Option Bool → HttpConfig → Type 0
Guarded p c = Protects p c.ssrf_protection c.allow_private

-- A configuration with the flags of another.
record SameFlags (c d : HttpConfig) : Type 0 where
  protects : c.ssrf_protection ≡ d.ssrf_protection
  allows : c.allow_private ≡ d.allow_private

SameFlags-Guarded : (p : Option Bool) (c d : HttpConfig) → SameFlags c d → Guarded p d → Guarded p c
SameFlags-Guarded none c d s g = s.protects ∙ g
SameFlags-Guarded (some a) c d s g = (s.protects ∙ g.0, s.allows ∙ g.1)

apply_options-Guarded :
    (os : List HttpOption) (p : Option Bool) (c : HttpConfig)
    → Guarded p c
    → Guarded (last_protection os p) (apply_options os c)
unfolding apply_options apply_option
apply_options-Guarded [] p c g = g
apply_options-Guarded (with_http_ssrf_protection allow ∷ os) p c g =
    apply_options-Guarded os (some allow) _ (refl, refl)
apply_options-Guarded (with_http_request_timeout d ∷ os) p c g =
    let c' = apply_option (with_http_request_timeout d) c in
    apply_options-Guarded os p c' (SameFlags-Guarded p c' c (ground arith) g)
apply_options-Guarded (with_http_max_redirects n ∷ os) p c g =
    let c' = apply_option (with_http_max_redirects n) c in
    apply_options-Guarded os p c' (SameFlags-Guarded p c' c (ground arith) g)
apply_options-Guarded (with_http_follow_redirects follow ∷ os) p c g =
    apply_options-Guarded os p (record c { follow_redirects = follow }) g
apply_options-Guarded (with_http_max_body_size size ∷ os) p c g =
    let c' = apply_option (with_http_max_body_size size) c in
    apply_options-Guarded os p c' (SameFlags-Guarded p c' c (ground arith) g)

context-Guarded : (p : Option Bool) → Guarded p (context_config p)
unfolding context_config default_http_config
context-Guarded none = refl
context-Guarded (some allow) = (refl, refl)

request-SameFlags : (req : HttpRequest) (c : HttpConfig) → SameFlags (apply_request_config req c) c
unfolding apply_request_config
request-SameFlags req c = ground arith

-- A request goes out with a secure dialer exactly if it is protected, in whose settings private
-- networks are as asked.
abbrev pub Dials : Option Bool → Client → Type 0
Dials none client = client.secure_dialer ≡ none
Dials (some allow) client =
    client.secure_dialer ≡ some (record { allow_private_network = allow; timeout = client.timeout })

pub record Goes (p : Option Bool) (req : HttpRequest) (call : Call) : Type 0 where
  pub dialer : Dials p call.client
  pub url : call.url ≡ req.url
  pub body : call.body ≡ req.body
  pub has_url : req.url ≢ []

create-Dials : (p : Option Bool) (c : HttpConfig) → Guarded p c → Dials p (create_http_client c)
unfolding create_http_client
create-Dials none c g = ground arith
create-Dials (some allow) c g = ground arith

none_sent : {A : Type 0} (a : A) → none ≡ some a → ⊥
none_sent a h = cc

some_injective : {A : Type 0} {a b : A} → some a ≡ some b → a ≡ b
some_injective h = cc

given_method :
    (req sent : HttpRequest) (b : Bool)
    → (if b then some (record req { method = codes "GET" }) else some req) ≡ some sent
    → (sent.url ≡ req.url) × (sent.body ≡ req.body)
given_method req sent true h =
    (ap (λ r. r.url) (some_injective (sym h)), ap (λ r. r.body) (some_injective (sym h)))
given_method req sent false h =
    (ap (λ r. r.url) (some_injective (sym h)), ap (λ r. r.body) (some_injective (sym h)))

validated :
    (req sent : HttpRequest)
    → validate_http_request req ≡ some sent
    → (sent.url ≡ req.url) × (sent.body ≡ req.body) × (text_eq req.url [] ≡ false)
unfolding validate_http_request
validated req sent h = elim (Bool-cases (text_eq req.url [])) [
  | inl e ↦ absurd (none_sent sent (rw e at h))
  | inr e ↦
      let (url, body) = given_method req sent (text_eq req.method []) (rw e at h) in (url, body, e)
]

module _ {S : Type 0} (show : IoError → Str) (reader : Reader S) (fuel room : ℕ)
    (unicode : Str → Str) (do_call : Call → Answer S) (req : HttpRequest) (call : Call) where
  valid-Goes :
      (p : Option Bool) (c : HttpConfig) (v : Option HttpRequest)
      → Guarded p c
      → validate_http_request req ≡ v
      → (perform_valid show reader fuel room unicode do_call c v).call ≡ some call
      → Goes p req call
  unfolding execute_http_request
  valid-Goes p c none g e h = cc
  valid-Goes p c (some sent) g e h =
      let (url, body, given) = validated req sent e in
      subst (Goes p req) (some_injective h) (record {
        dialer = create-Dials p c g;
        url = url;
        body = body;
        has_url = λ empty. cc (given, (text_eq_iff req.url []).1 empty);
      })

  -- A request that `PerformHTTPRequest` sends is for the URL, which is not empty, and the body that
  -- were asked for, by a client with a secure dialer exactly if the last option or else the context
  -- asks for protection; the dialer allows private networks as it says, and has the time of the
  -- client.
  pub perform_http_request-Goes :
      (private : Option Bool) (opts : List HttpOption)
      → (perform_http_request show reader fuel room unicode do_call private req opts).call
        ≡ some call
      → Goes (last_protection opts private) req call
  unfolding perform_http_request
  perform_http_request-Goes private opts h =
      let p = last_protection opts private in
      let c = apply_options opts (context_config private) in
      valid-Goes p (apply_request_config req c) (validate_http_request req)
        (SameFlags-Guarded p (apply_request_config req c) c (request-SameFlags req c)
          (apply_options-Guarded opts private (context_config private) (context-Guarded private)))
        refl h

-- A limit of no redirects is not kept: the client falls back on the ten of net/http.
pub zero_redirects :
    (c : HttpConfig) (via : ℕ)
    → c.follow_redirects ≡ true
    → follows (create_http_client (apply_option (with_http_max_redirects (pos 0)) c)).redirects via
      ≡ not (leb 10 via)
unfolding follows create_http_client apply_option
zero_redirects c via h = rw h
