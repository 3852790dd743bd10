-- ===== src/Netutil.antt =====
-- Package netutil: the address filter, the pinning dialer, the size limit and the retries.
pub mod Address
pub mod Netfilter
pub mod LimitedReader
pub mod Retry
pub mod SecureDialer
