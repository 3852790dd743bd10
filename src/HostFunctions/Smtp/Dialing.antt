-- ===== src/HostFunctions/Smtp/Dialing.antt =====
-- Where a SMTP connection goes.
use mathlib.Core.Path.{subst}
use reglet_hostlib.Base.{
  ◌≡◌, refl, Bool, true, false, Option, none, some, List, [], ◌∷◌, arith, if◌then◌else◌,
}
use reglet_hostlib.Base.Text.{Str}
use reglet_hostlib.Base.Int.{ℤ, pos, ltb_ℤ, milliseconds}
use reglet_hostlib.Netutil.Address.{Net}
use reglet_hostlib.HostFunctions.{
  CallError, Target, host_with_port, Checked, blocked, goes, check_host, validate_endpoint,
}
use reglet_hostlib.HostFunctions.Guarding.{Aimed, IsShown, Protects, protected-Aimed}
use reglet_hostlib.HostFunctions.Smtp.{
  SmtpConnectRequest, SmtpConfig, SmtpOption, with_smtp_timeout, with_smtp_tls_config,
  with_smtp_ssrf_protection, default_smtp_config, apply_option, apply_options, context_config,
  request_timeout, Machine, connect_checked, connect_valid, perform_smtp_connect,
}

-- The last protection that the options ask for, or else that of the context.
abbrev pub last_protection : List SmtpOption → Option Bool → Option Bool
last_protection [] p = p
last_protection (with_smtp_timeout d ∷ os) p = last_protection os p
last_protection (with_smtp_tls_config settings ∷ os) p = last_protection os p
last_protection (with_smtp_ssrf_protection allow ∷ os) p = last_protection os (some allow)

abbrev Guarded : Option Bool → SmtpConfig → Type 0
Guarded p c = Protects p c.ssrf_protection c.allow_private

timeout-Guarded :
    (p : Option Bool) (b : Bool) (d : ℤ) (c : SmtpConfig)
    → Guarded p c
    → Guarded p (if b then record c { timeout = d } else c)
timeout-Guarded p true d c h = h
timeout-Guarded p false d c h = h

apply_options-Guarded :
    (os : List SmtpOption) (p : Option Bool) (c : SmtpConfig)
    → Guarded p c
    → Guarded (last_protection os p) (apply_options os c)
unfolding apply_options apply_option
apply_options-Guarded [] p c h = h
apply_options-Guarded (with_smtp_timeout d ∷ os) p c h =
    apply_options-Guarded os p _ (timeout-Guarded p (ltb_ℤ (pos 0) d) d c h)
apply_options-Guarded (with_smtp_tls_config settings ∷ os) p c h =
    apply_options-Guarded os p (record c { tls_config = settings }) h
apply_options-Guarded (with_smtp_ssrf_protection allow ∷ os) p c h =
    apply_options-Guarded os (some allow) _ (refl, refl)

context-Guarded : (p : Option Bool) → Guarded p (context_config p)
unfolding context_config default_smtp_config
context-Guarded none = refl
context-Guarded (some allow) = (refl, refl)

-- A dialed target: an aimed host with the request's port, and for TLS, where no settings are
-- given, the name that was asked for.
pub record Reaches (net : Net) (req : SmtpConnectRequest) (t : Target) : Type 0 where
  pub host : Str
  pub aimed : Aimed net req.host req.port host
  pub address : t.address ≡ host_with_port host req.port

module _ (net : Net) (shown : IsShown net) (m : Machine) (req : SmtpConnectRequest)
    (t : Target) where
  checked-Reaches :
      (c : SmtpConfig) (k : Checked)
      → Guarded (some false) c
      → check_host net c.ssrf_protection c.allow_private req.host req.port ≡ k
      → (connect_checked m req c k).target ≡ some t
      → Reaches net req t
  checked-Reaches c (blocked r) p e h = cc
  checked-Reaches c (goes host) p e h = record {
    host = host;
    aimed = protected-Aimed net req.host req.port c.ssrf_protection c.allow_private host shown p e;
    address = ground arith;
  }

  valid-Reaches :
      (c : SmtpConfig) (e : Option CallError)
      → Guarded (some false) c
      → (connect_valid net m req c e).target ≡ some t
      → Reaches net req t
  valid-Reaches c (some e) p h = cc
  valid-Reaches c none p h = checked-Reaches c _ p refl h

  -- Where the last protection of the options, or else of the context, allows no private addresses,
  -- a target that `PerformSMTPConnect` dials, with TLS or plain, is the text of an external address
  -- with the port of the request, or its own host if the filter passes that with no address; no
  -- address may have an empty text.
  pub perform_smtp_connect-Reaches :
      (private : Option Bool) (opts : List SmtpOption)
      → last_protection opts private ≡ some false
      → (perform_smtp_connect net m private req opts).target ≡ some t
      → Reaches net req t
  unfolding perform_smtp_connect
  perform_smtp_connect-Reaches private opts e h =
      let c = apply_options opts (context_config private) in
      let guarded =
        apply_options-Guarded opts private (context_config private) (context-Guarded private) in
      valid-Reaches (request_timeout req c) (validate_endpoint req.host req.port)
        (timeout-Guarded (some false) (ltb_ℤ (pos 0) req.timeout) (milliseconds req.timeout) c
          (subst (λ p. Guarded p c) e guarded))
        h
