-- ===== src/Asymmetric/Open.antt =====
-- asymmetric.go: `OpenAsymmetric`.
use crypt.Base.{◌+◌, length, ◌==◌, ltb, not}
use crypt.Base.Outcome.{
  Result, guard, or_fail, ◌>>=◌, ◌>>◌, first, slice, slice_from, invalid_key, invalid_ciphertext,
  ciphertext_too_short, unsupported_version, bad_agreement, tampered,
}
use crypt.Wire.{Bytes}
use crypt.Wire.Base64
use crypt.Cipher.{Aead, new_chacha20, open_with}
use crypt.Format.{aead_nonce_size, aead_tag_size}
use crypt.Asymmetric.{Curve, x25519_key_size, version_asymmetric_v1}

-- `OpenAsymmetric`
unfoldable pub open_asymmetric : Curve → Aead → Bytes → Bytes → Result Bytes
open_asymmetric curve chacha priv token = do
  guard (length priv == x25519_key_size) invalid_key
  raw ← or_fail (Base64.decode Base64.url token) invalid_ciphertext
  guard (not (ltb (length raw) (1 + x25519_key_size + aead_nonce_size + aead_tag_size)))
      ciphertext_too_short
  version ← first raw
  guard (version == version_asymmetric_v1) unsupported_version
  eph_pub ← slice 1 (1 + x25519_key_size) raw
  nonce ← slice (1 + x25519_key_size) (1 + x25519_key_size + aead_nonce_size) raw
  body ← slice_from (1 + x25519_key_size + aead_nonce_size) raw
  shared ← or_fail (curve.x25519 priv eph_pub) bad_agreement
  bound ← new_chacha20 shared
  opened ← open_with chacha bound nonce body eph_pub
  or_fail opened tampered
