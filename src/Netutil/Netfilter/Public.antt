-- ===== src/Netutil/Netfilter/Public.antt =====
-- Which addresses the security restrictions let through (`checkIPSecurityRestrictions`).
use reglet_hostlib.Base.{◌≡◌, true, false, none, arith}
use reglet_hostlib.Netutil.Address.{
  Ip, is_loopback, is_private, is_link_local_unicast, is_multicast, is_unspecified,
}
use reglet_hostlib.Netutil.Netfilter.{NetfilterConfig, check_ip_security_restrictions}

-- The address is in none of the classes that the configuration blocks, and is not unspecified.
pub record IsPublic (cfg : NetfilterConfig) (ip : Ip) : Type 0 where
  pub not_loopback : cfg.block_localhost ≡ true → is_loopback ip ≡ false
  pub not_private : cfg.block_private ≡ true → is_private ip ≡ false
  pub not_link_local : cfg.block_link_local ≡ true → is_link_local_unicast ip ≡ false
  pub not_multicast : cfg.block_multicast ≡ true → is_multicast ip ≡ false
  pub not_unspecified : is_unspecified ip ≡ false

pub check_ip_security-IsPublic :
    (ip : Ip) (cfg : NetfilterConfig)
    → check_ip_security_restrictions ip cfg ≡ none
    → IsPublic cfg ip
unfolding check_ip_security_restrictions
check_ip_security-IsPublic ip cfg h = ground arith

pub IsPublic-check_ip_security :
    (ip : Ip) (cfg : NetfilterConfig)
    → IsPublic cfg ip
    → check_ip_security_restrictions ip cfg ≡ none
unfolding check_ip_security_restrictions
IsPublic-check_ip_security ip cfg h = ground arith
