-- ===== src/Tests.antt =====
-- Concrete runs of the server's parts: a world with a fixed clock and fixed random bytes, a few users
-- and connections, and the theorems applied to them.
pub mod Data
mod Accounts
mod Social
mod Servers
mod Client
mod Updates
mod Vault
