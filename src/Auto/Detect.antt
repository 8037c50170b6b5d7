-- ===== src/Auto/Detect.antt =====
-- What `OpenAuto` opens.
use crypt.Base.{
  ◌+◌, ◌-◌, ◌%◌, ◌≤◌, ◌≡◌, ◌≢◌, refl, sym, ◌∙◌, ◌++◌, Bool, true, false, length, take, drop, arith,
  length-append, drop-append, if◌then◌else◌, inl, inr, some, le→ltb, lt→ltb, eq→==, length-take,
  ◌⊎◌,
}
use mathlib.Core.Path.{subst}
use crypt.Base.Outcome.{Result, ok, err, panic, unknown_format}
use crypt.Wire.{Bytes, IsBytes}
use crypt.Wire.Base64
use crypt.Wire.Hex
use crypt.Cipher.{Aead}
use crypt.Format.{version_aead_v1}
use crypt.Format.Accepts.{frame}
use crypt.Format.Sealed.{length-frame}
use crypt.Gcm.Open.{open_token}
use crypt.Gcm.Accepts.{open_token_iff, open_token-ne-panic}
use crypt.Cbc.{Mode}
use crypt.Cbc.Padding.{pad, length-pad}
use crypt.Cbc.Decrypt.{decrypt_cbc}
use crypt.Cbc.Laws.{
  encrypt_cbc_lem, body_of, body-IsBytes, decrypt_cbc-ne-panic, decrypt_cbc-encrypt_cbc,
}
use crypt.Cbc.{valid_cbc_key_len}
use crypt.Cbc.Encrypt.{encrypt_cbc}
use crypt.Entropy.{Reader}
use crypt.Auto.HexText.{is_likely_aead-hex}
use crypt.Auto.{is_likely_aead, is_likely_cbc, looks_like_cbc, open_auto, or_else}

module _ (gcm : Aead) (mode : Mode) (key aad : Bytes) where
  likely :
      (token : Bytes) {raw : Bytes} (nonce plain : Bytes)
      → Base64.decode Base64.url token ≡ some raw
      → length nonce ≡ 12
      → raw ≡ frame gcm version_aead_v1 key nonce plain aad
      → is_likely_aead token ≡ true
  unfolding is_likely_aead
  likely token {raw} nonce plain good long shape =
      rw
        (
          good,
          shape,
          le→ltb (length (frame gcm version_aead_v1 key nonce plain aad)) 29
              (omega (arith, length-frame gcm version_aead_v1 key nonce plain aad long)),
        )
        refl

  -- What `Open` opens, `OpenAuto` opens to the same plaintext.
  pub open_auto-open_token :
      (token plain : Bytes)
      → open_token gcm key token aad ≡ ok plain
      → open_auto gcm mode key token aad ≡ ok plain
  unfolding open_auto
  open_auto-open_token token plain e =
      let (_, (raw, good, (nonce, long, shape))) = (open_token_iff gcm key aad token plain).0 e in
      rw (likely token nonce plain good long shape, e) refl

decrypts :
    (mode : Mode) (key plain : Bytes) (r : Reader)
    → valid_cbc_key_len (length key) ≡ true
    → IsBytes plain
    → IsBytes r.content
    → 16 ≤ length r.content
    → decrypt_cbc mode key (Hex.encode (take 16 r.content ++ body_of mode key plain r)) ≡ ok plain
decrypts mode key plain r hk hp hr enough =
    let whole : Bytes = take 16 r.content ++ body_of mode key plain r in
    let (text, same, _, opened) = decrypt_cbc-encrypt_cbc mode key plain r hk hp hr enough in
    let both = sym (encrypt_cbc_lem mode key plain r hk enough) ∙ same in
    subst (λ t. decrypt_cbc mode key t ≡ ok plain) (sym (cc)) opened

abbrev choose : Bool → Bool → Result Bytes → Result Bytes → Result Bytes
choose aead cbc opened decrypted =
    let as_cbc = if cbc then or_else decrypted (err unknown_format) else err unknown_format in
    if aead then or_else opened as_cbc else as_cbc

choose_sound :
    (aead cbc : Bool) (opened decrypted : Result Bytes)
    → opened ≢ panic
    → decrypted ≢ panic
    → ((plain : Bytes) × (choose aead cbc opened decrypted ≡ ok plain)
        × ((opened ≡ ok plain) ⊎ (decrypted ≡ ok plain)))
      ⊎ (choose aead cbc opened decrypted ≡ err unknown_format)
choose_sound true _ (ok plain) _ h k = inl (plain, refl, inl refl)
choose_sound true _ panic _ h k = absurd (h refl)
choose_sound true false (err e) _ h k = inr refl
choose_sound true true (err e) (ok plain) h k = inl (plain, refl, inr refl)
choose_sound true true (err e) (err f) h k = inr refl
choose_sound true true (err e) panic h k = absurd (k refl)
choose_sound false false _ _ h k = inr refl
choose_sound false true _ (ok plain) h k = inl (plain, refl, inr refl)
choose_sound false true _ (err e) h k = inr refl
choose_sound false true _ panic h k = absurd (k refl)

module _ (gcm : Aead) (mode : Mode) (key : Bytes) where
  whole_blocks :
      (plain : Bytes) (r : Reader)
      → 16 ≤ length r.content
      → looks_like_cbc (some (take 16 r.content ++ body_of mode key plain r)) ≡ true
  whole_blocks plain r enough =
      let iv : Bytes = take 16 r.content in
      let body : Bytes = body_of mode key plain r in
      let long : length iv ≡ 16 = omega (arith, length-take 16 r.content) in
      let size : length body ≡ length plain + (16 - length plain % 16) =
        mode.length-encrypt key iv (pad plain 16) ∙ length-pad plain in
      rw
        (
          le→ltb (length (iv ++ body)) 16 (omega (arith, length-append iv body)),
          drop-append 16 iv body long,
          eq→== (length body % 16) 0 (omega arith),
          lt→ltb 0 (length body) (omega arith),
        )
        refl

  -- With a key of 16, 24 or 32 bytes and 16 bytes in the source, `OpenAuto` with the key returns
  -- the plaintext of what `EncryptCBC` returns.
  pub open_auto-encrypt_cbc :
      (plain aad : Bytes) (r : Reader)
      → valid_cbc_key_len (length key) ≡ true
      → IsBytes plain
      → IsBytes r.content
      → 16 ≤ length r.content
      → (text : Bytes) × (encrypt_cbc mode key plain r
          ≡ (ok text, record r { content = drop 16 r.content }))
        × (open_auto gcm mode key text aad ≡ ok plain)
  unfolding open_auto is_likely_cbc
  open_auto-encrypt_cbc plain aad r hk hp hr enough =
      let raw : Bytes = take 16 r.content ++ body_of mode key plain r in
      let bytes = body-IsBytes mode key plain r hp hr in
      (
        Hex.encode raw,
        encrypt_cbc_lem mode key plain r hk enough,
        rw
            (
              is_likely_aead-hex raw bytes,
              Hex.decode-encode raw bytes,
              whole_blocks plain r enough,
              decrypts mode key plain r hk hp hr enough,
            )
            refl,
      )

  -- What `OpenAuto` returns, `Open` or `DecryptCBC` returns with the key, and every other answer
  -- of it is ErrUnknownFormat.
  pub open_auto_sound :
      (text aad : Bytes)
      → ((plain : Bytes) × (open_auto gcm mode key text aad ≡ ok plain)
          × ((open_token gcm key text aad ≡ ok plain) ⊎ (decrypt_cbc mode key text ≡ ok plain)))
        ⊎ (open_auto gcm mode key text aad ≡ err unknown_format)
  unfolding open_auto
  open_auto_sound text aad =
      choose_sound (is_likely_aead text) (is_likely_cbc text) (open_token gcm key text aad)
        (decrypt_cbc mode key text) (open_token-ne-panic gcm key aad text)
        (decrypt_cbc-ne-panic mode key text)
