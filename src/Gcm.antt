-- ===== src/Gcm.antt =====
-- aead.go: authenticated encryption with AES-256-GCM. `Seal` and `Open` hold its package-level
-- functions, `Sealer` its type of that name; what is proved of them is in the other modules.
pub mod Seal
mod Tests
pub mod Open
pub mod Sealer
pub mod Sealed
pub mod Accepts
pub mod RoundTrip
