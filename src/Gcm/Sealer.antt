-- ===== src/Gcm/Sealer.antt =====
-- aead.go: the type `Sealer`, a key validated once, and its methods.
use crypt.Base.{length, ◌==◌}
use crypt.Base.Outcome.{Result, ok, guard, or_fail, ◌>>=◌, ◌>>◌, invalid_key, invalid_ciphertext}
use crypt.Wire.{Bytes}
use crypt.Wire.Base64
use crypt.Entropy.{Drawing, draw, and_then, lift}
use crypt.Cipher.{Aead, new_gcm}
use crypt.Format.{
  aead_key_size, aead_nonce_size, version_aead_v1, seal_frame, check_frame, open_frame,
}

-- `gcm` is the cipher bound to its key, which `new_gcm` returns.
pub record Sealer : Type 0 where
  pub gcm : Bytes

-- `NewSealer`
unfoldable pub new_sealer : Bytes → Result Sealer
new_sealer key = do
  guard (length key == aead_key_size) invalid_key
  gcm ← new_gcm key
  ok (record { gcm = gcm })

-- `Sealer.Seal`
unfoldable pub sealer_seal : Aead → Sealer → Bytes → Bytes → Drawing Bytes
sealer_seal c s plain aad r =
    and_then (λ nonce. lift (seal_frame c version_aead_v1 s.gcm nonce plain aad))
      (draw aead_nonce_size r)

-- `Sealer.Open`
unfoldable pub sealer_open : Aead → Sealer → Bytes → Bytes → Result Bytes
sealer_open c s token aad = do
  raw ← or_fail (Base64.decode Base64.url token) invalid_ciphertext
  check_frame version_aead_v1 raw
  open_frame c s.gcm raw aad
