-- ===== src/Zones.antt =====
-- internal/zones: the zones' HTTP APIs and record generators, over any TtlStore.
pub mod Replies
pub mod Refusals
pub mod Dyn
pub mod Challenges
pub mod Myaddr
