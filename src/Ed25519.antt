-- ===== src/Ed25519.antt =====
-- ed25519.go: Ed25519 signatures. The scheme of crypto/ed25519 is a parameter.
pub mod Sample
mod Tests
use crypt.Base.{
  ℕ, ◌≤◌, ◌≡◌, ◌↔◌, refl, Bool, true, length, ◌==◌, eq→==, take, drop, length-take, arith,
}
use crypt.Base.Outcome.{Result, ok, err, guard, ◌>>◌, invalid_key, invalid_signature}
use crypt.Wire.{Bytes, IsBytes}
use crypt.Entropy as Entropy
use crypt.Entropy.{Reader, Drawing, draw, lift}
use crypt.Entropy.Laws.{draw-enough}

-- The key pair of a seed of 32 bytes, the signature of a private key on a text, and the check,
-- which accepts the signatures of the private key that belongs to the public key.
pub record Scheme : Type 0 where
  pub public_of : Bytes → Bytes
  pub private_of : Bytes → Bytes
  pub sign : Bytes → Bytes → Bytes
  pub verify : Bytes → Bytes → Bytes → Bool
  pub length-public_of : (seed : Bytes) → length (public_of seed) ≡ 32
  pub length-private_of : (seed : Bytes) → length (private_of seed) ≡ 64
  pub length-sign : (priv text : Bytes) → length (sign priv text) ≡ 64
  pub sign-IsBytes : (priv text : Bytes) → IsBytes (sign priv text)
  pub verify-sign :
      (seed text : Bytes)
      → length seed ≡ 32
      → verify (public_of seed) text (sign (private_of seed) text) ≡ true

abbrev pub ed25519_public_key_size : ℕ
ed25519_public_key_size = 32

abbrev pub ed25519_private_key_size : ℕ
ed25519_private_key_size = 64

abbrev pub ed25519_signature_size : ℕ
ed25519_signature_size = 64

-- `GenerateEd25519`: the public key and the private key of a seed drawn from `randReader`.
unfoldable pub generate_ed25519 : Scheme → Drawing (Bytes × Bytes)
generate_ed25519 scheme =
    Entropy.◌>>=◌ (draw 32) λ seed. lift (ok (scheme.public_of seed, scheme.private_of seed))

-- `SignEd25519`
unfoldable pub sign_ed25519 : Scheme → Bytes → Bytes → Result Bytes
sign_ed25519 scheme priv text = do
  guard (length priv == ed25519_private_key_size) invalid_key
  ok (scheme.sign priv text)

-- `VerifyEd25519`
unfoldable pub verify_ed25519 : Scheme → Bytes → Bytes → Bytes → Result Bool
verify_ed25519 scheme pub_key text signature = do
  guard (length pub_key == ed25519_public_key_size) invalid_key
  guard (length signature == ed25519_signature_size) invalid_signature
  ok (scheme.verify pub_key text signature)

-- With 32 bytes in the source, `GenerateEd25519` returns a key pair and uses 32 bytes of the source
-- up; `SignEd25519` with the private key returns a signature of every text, and `VerifyEd25519`
-- with the public key accepts it.
pub verify_ed25519-sign_ed25519 :
    (scheme : Scheme) (text : Bytes) (r : Reader)
    → 32 ≤ length r.content
    → (pub_key : Bytes) × (priv : Bytes) × (signature : Bytes) × (generate_ed25519 scheme r
        ≡ (ok (pub_key, priv), record r { content = drop 32 r.content }))
      × (sign_ed25519 scheme priv text ≡ ok signature)
      × (verify_ed25519 scheme pub_key text signature ≡ ok true)
unfolding generate_ed25519 sign_ed25519 verify_ed25519
verify_ed25519-sign_ed25519 scheme text r enough =
    let seed : Bytes = take 32 r.content in
    let priv = scheme.private_of seed in
    let size = scheme.length-private_of seed in
    (
      scheme.public_of seed,
      priv,
      scheme.sign priv text,
      rw (draw-enough 32 r enough) refl,
      rw size refl,
      rw
          (
            scheme.length-public_of seed,
            scheme.length-sign priv text,
            scheme.verify-sign seed text (omega (arith, length-take 32 r.content)),
          )
          refl,
    )
