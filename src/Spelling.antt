-- ===== src/Spelling.antt =====
-- aead.go, aead_chacha20.go, keyring.go, asymmetric.go, timelock.go and kms.go: a token is read
-- through a decoder of base64 that is not strict.
mod Tests
use crypt.Base.{◌≡◌, refl, List}
use crypt.Base.Outcome.{Result}
use crypt.Wire.{Bytes}
use crypt.Wire.Base64
use crypt.Wire.Base64.Spelling.{Respelled, decode-Respelled}
use crypt.Cipher.{Aead}
use crypt.Gcm.Open.{open_token}
use crypt.ChaCha.Open.{open_chacha20}
use crypt.KeyRing.{KeyRing}
use crypt.KeyRing.Open.{ring_open}
use crypt.Asymmetric.{Curve}
use crypt.Asymmetric.Open.{open_asymmetric}
use crypt.Kms.Seal.{EnvelopeSealer}
use crypt.Kms.Open.{envelope_open}

-- A token with a line end put in anywhere, or with another last character that differs from its
-- own in unused bits only, is answered as the token is by `Open`, `OpenChaCha20`, `KeyRing.Open`,
-- `OpenAsymmetric` and `EnvelopeSealer.Open`, with every key and all additional data.
pub respelling_ignored :
    (c : Aead) (curve : Curve) (r : KeyRing) (order : List Bytes) (e : EnvelopeSealer)
    (key aad token token' : Bytes)
    → Respelled token token'
    → (open_token c key token' aad ≡ open_token c key token aad)
      × (open_chacha20 c key token' aad ≡ open_chacha20 c key token aad)
      × (ring_open c r order token' aad ≡ ring_open c r order token aad)
      × (open_asymmetric curve c key token' ≡ open_asymmetric curve c key token)
      × (envelope_open c e token' aad ≡ envelope_open c e token aad)
unfolding open_token open_chacha20 ring_open open_asymmetric envelope_open
respelling_ignored c curve r order e key aad token token' s =
    let same_bytes : Base64.decode Base64.url token ≡ Base64.decode Base64.url token' =
      decode-Respelled token token' s in
    (
      rw (open_token, same_bytes) refl,
      rw (open_chacha20, same_bytes) refl,
      rw (ring_open, same_bytes) refl,
      rw (open_asymmetric, same_bytes) refl,
      rw (envelope_open, same_bytes) refl,
    )
