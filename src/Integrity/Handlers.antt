-- ===== src/Integrity/Handlers.antt =====
-- The constraints of the tables under the cases of the switch.
pub mod Login
pub mod Accounts
pub mod Chat
pub mod Groups
