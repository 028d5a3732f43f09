-- ===== src/TtlStore.antt =====
-- internal/ttlstore: the key-value stores whose values expire.
pub mod Contract
pub mod Simple
pub mod Prefixed
