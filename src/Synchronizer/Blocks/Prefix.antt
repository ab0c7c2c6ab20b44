-- ===== src/Synchronizer/Blocks/Prefix.antt =====
-- A range of blocks that fails is stored up to the block that failed, and no further.
