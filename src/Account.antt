-- ===== src/Account.antt =====
-- Account management of nexus_server/main.go: registration and login, sessions, second factor,
-- password reset, login by QR code, erasure.
pub mod Login
pub mod Session
pub mod Totp
pub mod Reset
pub mod Qr
pub mod Erase
pub mod Expiry
pub mod Handoff
pub mod Verified
pub mod OneTime
pub mod Erasure
