-- ===== src/Social.antt =====
-- What users do with one another in nexus_server/main.go: friends, blocks and reports, group
-- conversations, messages kept for users who are offline, presence, search.
pub mod Consent
pub mod Friends
pub mod Blocks
pub mod Convos
pub mod Offline
pub mod Delivery
pub mod Search
pub mod Founding
