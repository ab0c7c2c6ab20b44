-- ===== src/Claimtxman.antt =====
-- The claims that the service sends itself (claimtxman/).
mod Keyed
pub mod Types
pub mod NonceCache
pub mod Single
pub mod Manager
pub mod PendingTxs
pub mod Trigger
pub mod StoreChanges
pub mod Compose
pub mod Monitor
mod Tests
