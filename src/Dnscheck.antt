-- ===== src/Dnscheck.antt =====
-- internal/zones/dnscheck: the test zone.
pub mod Options
pub mod Watchers
pub mod Texts
pub mod Records
pub mod Answers
pub mod Handler
