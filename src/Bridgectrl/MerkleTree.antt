-- ===== src/Bridgectrl/MerkleTree.antt =====
-- bridgectrl/merkletree.go: the append-only exit tree. Its proofs are in the modules below.
-- The rollup tree and the Merkle proofs are in Bridgectrl/MerkleTree/Rollup.antt and Proof.antt.
pub mod Defs
pub mod Spec
pub mod Climb
pub mod AddLeaf
pub mod Siblings
pub mod Build
pub mod Levels
pub mod Root
pub mod Proof
pub mod Rollup
pub use Defs.{MerkleTree}
