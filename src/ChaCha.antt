-- ===== src/ChaCha.antt =====
-- aead_chacha20.go: authenticated encryption with ChaCha20-Poly1305, version 2 of the format.
pub mod Seal
mod Tests
pub mod Open
pub mod Laws
