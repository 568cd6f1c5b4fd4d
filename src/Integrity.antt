-- ===== src/Integrity.antt =====
-- Proofs on the constraints of the tables, for each part of nexus_server/main.go.
pub mod Accounts
pub mod Erase
pub mod Social
pub mod Convos
pub mod Quiet
pub mod Spaces
pub mod Handlers
pub mod Moderation
pub mod Steps
