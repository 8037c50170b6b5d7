-- ===== src/Gcm/Seal.antt =====
-- aead.go: `Seal` and `sealWithNonce`.
use crypt.Base.{Option, none, some, length, ◌==◌, if◌then◌else◌}
use crypt.Base.Outcome.{ok, err, guard, invalid_key, bad_nonce_length}
use crypt.Wire.{Bytes}
use crypt.Entropy.{Drawing, draw, lift, ◌>>=◌, ◌>>◌}
use crypt.Cipher.{Aead, new_gcm}
use crypt.Format.{aead_key_size, aead_nonce_size, version_aead_v1, seal_frame}

-- The nonce given, or a fresh one if none is given.
unfoldable pub pick_nonce : Option Bytes → Drawing Bytes
pick_nonce none = draw aead_nonce_size
pick_nonce (some nonce) =
    lift (if length nonce == aead_nonce_size then ok nonce else err bad_nonce_length)

-- `sealWithNonce`
unfoldable pub seal_with_nonce : Aead → Bytes → Bytes → Bytes → Option Bytes → Drawing Bytes
seal_with_nonce gcm key plain aad nonce = do
  lift (guard (length key == aead_key_size) invalid_key)
  bound ← lift (new_gcm key)
  nonce' ← pick_nonce nonce
  lift (seal_frame gcm version_aead_v1 bound nonce' plain aad)

-- `Seal`
unfoldable pub seal : Aead → Bytes → Bytes → Bytes → Drawing Bytes
seal gcm key plain aad = seal_with_nonce gcm key plain aad none
