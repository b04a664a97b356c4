-- ===== src/Tests.antt =====
-- The theorems at concrete inputs, and runs of the native methods.
pub mod Setting
pub mod Paths
pub mod Credentials
pub mod Session
pub mod Entries
pub mod CacheSession
pub mod Header
pub mod Lifetime
pub mod Transfers
pub mod Contents
pub mod Discovery
pub mod Clients
pub mod Tasks
pub mod Resets
