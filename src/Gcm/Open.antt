-- ===== src/Gcm/Open.antt =====
-- aead.go: `Open`.
use crypt.Base.{length, ◌==◌}
use crypt.Base.Outcome.{Result, guard, or_fail, ◌>>=◌, ◌>>◌, invalid_key, invalid_ciphertext}
use crypt.Wire.{Bytes}
use crypt.Wire.Base64
use crypt.Cipher.{Aead, new_gcm}
use crypt.Format.{aead_key_size, version_aead_v1, check_frame, open_frame}

-- `Open`
unfoldable pub open_token : Aead → Bytes → Bytes → Bytes → Result Bytes
open_token gcm key token aad = do
  guard (length key == aead_key_size) invalid_key
  raw ← or_fail (Base64.decode Base64.url token) invalid_ciphertext
  check_frame version_aead_v1 raw
  bound ← new_gcm key
  open_frame gcm bound raw aad
