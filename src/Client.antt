-- ===== src/Client.antt =====
-- The desktop client of native_client: its audio codec, network audit, updater, file transfer, and
-- what it keeps of peers and messages.
pub mod Ulaw
pub mod Version
pub mod Updater
pub mod Crypto
pub mod Transfer
pub mod Calls
pub mod Stun
pub mod EndToEnd
pub mod Sentinel
pub mod Vault
pub mod App
