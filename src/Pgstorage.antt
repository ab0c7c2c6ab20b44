-- ===== src/Pgstorage.antt =====
-- db/pgstorage/pgstorage.go: the tables that the service keeps in its database.
pub mod MerkleTree
