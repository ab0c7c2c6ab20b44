-- ===== src/Claimtxman/Monitor.antt =====
-- claimtxman/monitor_compressed_txs.go: the rounds that send groups of claims and follow them.
pub mod Defs
pub mod Round
pub mod Groups
pub mod Send
pub mod InFlight
pub mod Storage
pub mod Outdate
