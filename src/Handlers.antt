-- ===== src/Handlers.antt =====
-- handleConnections of nexus_server/main.go: one function for each case of its switch, on a World,
-- the connection that the message came from, the message, and the server.
pub mod Replacement
pub mod Origin
pub mod Login
pub mod Accounts
pub mod Phone
pub mod Chat
pub mod Roster
pub mod Groups
pub mod Signal
pub mod Channels
pub mod Space
pub mod Blocking
