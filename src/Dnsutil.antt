-- ===== src/Dnsutil.antt =====
-- internal/dnsutil: what the zone handlers share.
pub mod Strings
pub mod Edns
pub mod Records
pub mod Dnssec
pub mod Simple
