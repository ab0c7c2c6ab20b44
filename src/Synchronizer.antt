-- ===== src/Synchronizer.antt =====
-- The synchronizer of one network (synchronizer/).
pub mod Reorg
pub mod Reset
pub mod Events
pub mod Blocks
pub mod SyncBlocks
mod Tests
