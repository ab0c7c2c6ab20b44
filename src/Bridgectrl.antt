-- ===== src/Bridgectrl.antt =====
-- The exit trees and the rollup tree (bridgectrl/).
pub mod Hash
pub mod Store
pub mod MerkleTree
pub mod Controller
mod Tests
