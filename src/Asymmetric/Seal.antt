-- ===== src/Asymmetric/Seal.antt =====
-- asymmetric.go: `GenerateKeyPair` and `SealAsymmetric`.
use crypt.Base.{◌∷◌, ◌++◌, length, ◌==◌}
use crypt.Base.Outcome.{ok, guard, or_fail, invalid_key, keygen_failure, bad_agreement}
use crypt.Wire.{Bytes}
use crypt.Wire.Base64
use crypt.Entropy.{Drawing, draw, lift, ◌>>=◌, ◌>>◌}
use crypt.Cipher.{Aead, new_chacha20, seal_with}
use crypt.Format.{aead_nonce_size}
use crypt.Asymmetric.{Curve, x25519_key_size, version_asymmetric_v1}

-- `GenerateKeyPair`: the public key and the private key.
unfoldable pub generate_key_pair : Curve → Drawing (Bytes × Bytes)
generate_key_pair curve = do
  priv ← draw x25519_key_size
  pub_key ← lift (or_fail (curve.x25519 priv curve.basepoint) keygen_failure)
  lift (ok (pub_key, priv))

-- `SealAsymmetric`
unfoldable pub seal_asymmetric : Curve → Aead → Bytes → Bytes → Drawing Bytes
seal_asymmetric curve chacha recipient plain = do
  lift (guard (length recipient == x25519_key_size) invalid_key)
  (eph_pub, eph_priv) ← generate_key_pair curve
  shared ← lift (or_fail (curve.x25519 eph_priv recipient) bad_agreement)
  bound ← lift (new_chacha20 shared)
  nonce ← draw aead_nonce_size
  body ← lift (seal_with chacha bound nonce plain eph_pub)
  lift (ok (Base64.encode Base64.url (version_asymmetric_v1 ∷ (eph_pub ++ (nonce ++ body)))))
