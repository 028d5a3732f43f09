-- ===== src/Tests.antt =====
-- The theorems at work on concrete inputs, a module per part of the program.
pub mod Stores
pub mod Files
pub mod Strings
pub mod Oblivious
pub mod Requests
pub mod Names
pub mod Servers
pub mod Signing
pub mod Probing
