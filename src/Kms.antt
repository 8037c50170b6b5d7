-- ===== src/Kms.antt =====
-- kms.go: envelope encryption with a key management service. The interface `KMS` stands here, its
-- client `EnvelopeSealer` in `Envelope`, and the in-memory service `StaticKMS` in `Static`.
pub mod Seal
pub mod Open
pub mod Static
pub mod Envelope
pub mod Overflow
pub mod InMemory
mod Tests
use crypt.Base.{ℕ, ◌+◌, ◌≡◌, ◌<◌, ◌≤◌, ◌^◌, length}
use crypt.Base.Outcome.{Result, ok, panic}
use crypt.Wire.{Bytes, IsBytes}
use crypt.Entropy.{Reader, Drawing}

-- The interface `KMS`: `GenerateDataKey` returns a key and the same key wrapped, `Decrypt` unwraps,
-- `Encrypt` wraps. The context is left out.
pub record Kms : Type 0 where
  pub generate_data_key : Bytes → Drawing (Bytes × Bytes)
  pub decrypt : Bytes → Bytes → Result Bytes
  pub encrypt : Bytes → Bytes → Drawing Bytes

-- What the client relies on for a key id: the wrapped key of a data key unwraps to it, a data key
-- has the length that `Seal` takes, and a wrapped key is a string of bytes whose length, with the five
-- bytes before it, fits 32 bits.
pub record Serves (kms : Kms) (key_id : Bytes) : Type 0 where
  pub unwraps :
      (r r' : Reader) (dek wrapped : Bytes)
      → IsBytes r.content
      → kms.generate_data_key key_id r ≡ (ok (dek, wrapped), r')
      → kms.decrypt key_id wrapped ≡ ok dek
  pub key_size :
      (r r' : Reader) (dek wrapped : Bytes)
      → kms.generate_data_key key_id r ≡ (ok (dek, wrapped), r')
      → length dek ≡ 32
  pub wrapped_fits :
      (r r' : Reader) (dek wrapped : Bytes)
      → IsBytes r.content
      → kms.generate_data_key key_id r ≡ (ok (dek, wrapped), r')
      → (length wrapped + 5 < 2 ^ 32) × IsBytes wrapped × IsBytes r'.content
