-- ===== src/ChaCha/Seal.antt =====
-- aead_chacha20.go: `SealChaCha20` and `sealChaCha20WithNonce`.
use crypt.Base.{Option, none, length, ◌==◌}
use crypt.Base.Outcome.{guard, invalid_key}
use crypt.Wire.{Bytes}
use crypt.Entropy.{Drawing, lift, ◌>>=◌, ◌>>◌}
use crypt.Cipher.{Aead, new_chacha20}
use crypt.Format.{aead_key_size, version_aead_v2, seal_frame}
use crypt.Gcm.Seal.{pick_nonce}

-- `sealChaCha20WithNonce`; the nonce is chosen as in aead.go.
unfoldable pub seal_chacha20_with_nonce :
    Aead → Bytes → Bytes → Bytes → Option Bytes → Drawing Bytes
seal_chacha20_with_nonce c key plain aad nonce = do
  lift (guard (length key == aead_key_size) invalid_key)
  bound ← lift (new_chacha20 key)
  nonce' ← pick_nonce nonce
  lift (seal_frame c version_aead_v2 bound nonce' plain aad)

-- `SealChaCha20`
unfoldable pub seal_chacha20 : Aead → Bytes → Bytes → Bytes → Drawing Bytes
seal_chacha20 c key plain aad = seal_chacha20_with_nonce c key plain aad none
