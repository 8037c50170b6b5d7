-- ===== src/Asymmetric.antt =====
-- asymmetric.go: sealing to an X25519 public key. The curve is a parameter.
pub mod Seal
pub mod Open
pub mod Accepts
pub mod RoundTrip
pub mod Sample
mod Tests
use crypt.Base.{ℕ, ◌≡◌, Option, some, length}
use crypt.Wire.{Bytes, IsBytes}

-- `curve25519.X25519`: the shared secret of a private key and a public key. It fails on a key of
-- another length than 32 and where the product is zero. The two sides of an exchange compute the
-- same secret.
pub record Curve : Type 0 where
  pub x25519 : Bytes → Bytes → Option Bytes
  pub basepoint : Bytes
  pub length-x25519 : (k p q : Bytes) → x25519 k p ≡ some q → length q ≡ 32
  pub x25519-IsBytes : (k p q : Bytes) → x25519 k p ≡ some q → IsBytes q
  pub agreement :
      (a b pub_a pub_b : Bytes)
      → x25519 a basepoint ≡ some pub_a
      → x25519 b basepoint ≡ some pub_b
      → x25519 a pub_b ≡ x25519 b pub_a

abbrev pub x25519_key_size : ℕ
x25519_key_size = 32

abbrev pub version_asymmetric_v1 : ℕ
version_asymmetric_v1 = 0x05
