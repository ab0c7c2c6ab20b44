-- ===== src/Server.antt =====
-- The answers of the bridge service (server/service.go).
pub mod Proofs
pub mod Replies
mod Tests
