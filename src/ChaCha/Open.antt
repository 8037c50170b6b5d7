-- ===== src/ChaCha/Open.antt =====
-- aead_chacha20.go: `OpenChaCha20`.
use crypt.Base.{length, ◌==◌}
use crypt.Base.Outcome.{Result, guard, or_fail, ◌>>=◌, ◌>>◌, invalid_key, invalid_ciphertext}
use crypt.Wire.{Bytes}
use crypt.Wire.Base64
use crypt.Cipher.{Aead, new_chacha20}
use crypt.Format.{aead_key_size, version_aead_v2, check_frame, open_frame}

-- `OpenChaCha20`
unfoldable pub open_chacha20 : Aead → Bytes → Bytes → Bytes → Result Bytes
open_chacha20 c key token aad = do
  guard (length key == aead_key_size) invalid_key
  raw ← or_fail (Base64.decode Base64.url token) invalid_ciphertext
  check_frame version_aead_v2 raw
  bound ← new_chacha20 key
  open_frame c bound raw aad
