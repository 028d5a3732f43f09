-- ===== src/Odoh.antt =====
-- internal/odoh: the target and client roles of Oblivious DoH.
pub mod Wire
pub mod Configs
pub mod Messages
pub mod Plaintexts
pub mod Exchange
