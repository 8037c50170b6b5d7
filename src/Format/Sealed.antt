-- ===== src/Format/Sealed.antt =====
-- The token of a frame: what a sealing function returns, its length, and what it decodes to.
use crypt.Base.{ℕ, ◌+◌, ◌*◌, ◌/◌, ◌<◌, ◌≡◌, refl, length, arith, All-append}
use crypt.Base.Outcome.{ok}
use crypt.Wire.{Bytes, IsByte, IsBytes}
use crypt.Wire.Base64
use crypt.Cipher.{Aead, seal_with_12}
use crypt.Format.{seal_frame}
use crypt.Format.Accepts.{frame}
use crypt.Format.Layout.{frame-length}
use crypt.Format.Tokens.{IsTokenOf}

module _ (c : Aead) (version : ℕ) (key nonce plain aad : Bytes) where
  abbrev pub token_of : Bytes
  token_of = Base64.encode Base64.url (frame c version key nonce plain aad)

  pub seal_frame_lem : length nonce ≡ 12 → seal_frame c version key nonce plain aad ≡ ok token_of
  unfolding seal_frame
  seal_frame_lem h = rw (seal_with_12 c key nonce plain aad h) refl

  pub length-frame :
      length nonce ≡ 12 → length (frame c version key nonce plain aad) ≡ length plain + 29
  length-frame h =
      let body : Bytes = c.seal key nonce plain aad in
      omega (arith, frame-length version nonce body h, c.length-seal key nonce plain aad)

  pub length-token_of : length nonce ≡ 12 → length token_of ≡ ((length plain + 29) * 4 + 2) / 3
  length-token_of h = omega (
    arith,
    Base64.Shape.length-encode Base64.url (frame c version key nonce plain aad),
    length-frame h,
  )

  -- A frame of bytes consists of bytes.
  pub frame-IsBytes :
      version < 256 → IsBytes nonce → IsBytes plain → IsBytes (frame c version key nonce plain aad)
  frame-IsBytes hv hn hp = (
    hv,
    All-append IsByte nonce (c.seal key nonce plain aad) hn (c.seal-IsBytes key nonce plain aad hp),
  )

  pub token_of-IsTokenOf :
      version < 256
      → length nonce ≡ 12
      → IsBytes nonce
      → IsBytes plain
      → IsTokenOf c version key aad token_of plain
  token_of-IsTokenOf hv h hn hp = (
    frame c version key nonce plain aad,
    Base64.RoundTrip.decode-encode Base64.url Base64.RoundTrip.url-IsAlphabet _
        (frame-IsBytes hv hn hp),
    (nonce, h, refl),
  )
