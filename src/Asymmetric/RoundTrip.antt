-- ===== src/Asymmetric/RoundTrip.antt =====
-- `OpenAsymmetric` opens what `SealAsymmetric` makes.
use crypt.Base.{
  ◌≤◌, ◌≡◌, refl, ◌∙◌, ◌++◌, some, length, take, drop, arith, length-take, length-drop, All-append,
  All-take, All-drop,
}
use crypt.Base.Outcome.{ok}
use crypt.Wire.{Bytes, IsByte, IsBytes}
use crypt.Wire.Base64
use crypt.Entropy.{Reader}
use crypt.Entropy.Laws.{draw-enough}
use crypt.Cipher.{Aead, new_chacha20_32, seal_with_12}
use crypt.Asymmetric.{Curve}
use crypt.Asymmetric.Seal.{seal_asymmetric, generate_key_pair}
use crypt.Asymmetric.Accepts.{raw_of, accepted}
use crypt.Asymmetric.Open.{open_asymmetric}

module _ (curve : Curve) (chacha : Aead) where
  -- For the public key of a private key of 32 bytes, with 44 bytes in the source, and where the
  -- curve gives the private key drawn from the source a public key and a secret shared with the
  -- recipient, `SealAsymmetric` returns a token, uses 44 bytes of the source up, and
  -- `OpenAsymmetric` with the private key returns the plaintext.
  pub open_asymmetric-seal_asymmetric :
      (priv recipient eph shared plain : Bytes) (r : Reader)
      → length priv ≡ 32
      → curve.x25519 priv curve.basepoint ≡ some recipient
      → curve.x25519 (take 32 r.content) curve.basepoint ≡ some eph
      → curve.x25519 (take 32 r.content) recipient ≡ some shared
      → IsBytes plain
      → IsBytes r.content
      → 44 ≤ length r.content
      → (token : Bytes) × (seal_asymmetric curve chacha recipient plain r
          ≡ (ok token, record r { content = drop 12 (drop 32 r.content) }))
        × (open_asymmetric curve chacha priv token ≡ ok plain)
  unfolding seal_asymmetric generate_key_pair
  open_asymmetric-seal_asymmetric priv recipient eph shared plain r hk own drawn secret hp hr
        enough =
      let left : Reader = record r { content = drop 32 r.content } in
      let nonce : Bytes = take 12 left.content in
      let size = length-drop 32 r.content in
      let long : length nonce ≡ 12 = omega (arith, length-take 12 left.content) in
      let h_eph = curve.length-x25519 _ _ eph drawn in
      let h_shared = curve.length-x25519 _ _ shared secret in
      let agreed = curve.agreement priv (take 32 r.content) recipient eph own drawn ∙ secret in
      let hn = All-take IsByte 12 left.content (All-drop IsByte 32 r.content hr) in
      let bytes : IsBytes (raw_of chacha eph shared nonce plain) = (
        omega arith,
        All-append IsByte eph (nonce ++ chacha.seal shared nonce plain eph)
            (curve.x25519-IsBytes _ _ eph drawn)
            (All-append IsByte nonce (chacha.seal shared nonce plain eph) hn
              (chacha.seal-IsBytes shared nonce plain eph hp)),
      ) in
      (
        Base64.encode Base64.url (raw_of chacha eph shared nonce plain),
        rw
            (
              curve.length-x25519 _ _ recipient own,
              draw-enough 32 r (omega arith),
              drawn,
              secret,
              new_chacha20_32 shared h_shared,
              draw-enough 12 left (omega arith),
              seal_with_12 chacha shared nonce plain eph long,
            )
            refl,
        accepted curve chacha priv (Base64.encode Base64.url (raw_of chacha eph shared nonce plain))
            plain
            (
              hk,
              eph,
              nonce,
              shared,
              h_eph,
              long,
              agreed,
              Base64.RoundTrip.decode-encode Base64.url Base64.RoundTrip.url-IsAlphabet
                  (raw_of chacha eph shared nonce plain) bytes,
            ),
      )
