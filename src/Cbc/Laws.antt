-- ===== src/Cbc/Laws.antt =====
-- `EncryptCBC` and `DecryptCBC`: what is accepted, the round trip, and the answers on any input.
use crypt.Base.{
  ◌⊎◌, ◌+◌, ◌-◌, ◌*◌, ◌%◌, ◌≤◌, ◌≡◌, ◌≢◌, ◌↔◌, refl, sym, ap, ◌∙◌, ◌++◌, true, length, ltb, ◌==◌,
  take, drop, arith, length-append, length-take, length-drop, take-append, drop-append,
  take-append-drop, Bool-cases, Option-cases, inl, inr, ltb→le, le→ltb, eq→==, ==→eq, some,
  All-append, All-take,
}
use crypt.Base.Outcome.{
  Error, ok, err, panic, slice-in_range, slice_from-in_range, invalid_key, invalid_ciphertext,
  ciphertext_too_short, ciphertext_not_block_aligned,
}
use crypt.Wire.{Bytes, IsByte, IsBytes}
use crypt.Wire.Hex
use crypt.Entropy.{Reader}
use crypt.Entropy.Laws.{draw-enough}
use crypt.Cbc.{Mode, valid_cbc_key_len}
use crypt.Cbc.Padding.{pad, unpad, unpad_iff, unpad-ne-panic, length-pad, pad-IsBytes}
use crypt.Cbc.Encrypt.{encrypt_cbc}
use crypt.Cbc.Decrypt.{decrypt_cbc}

module _ (mode : Mode) (key : Bytes) where
  -- The text decodes to an IV and the encryption of the padded plaintext under it.
  abbrev pub IsCbcOf : Bytes → Bytes → Type 0
  IsCbcOf text plain =
      (valid_cbc_key_len (length key) ≡ true)
      × (iv : Bytes) × (length iv ≡ 16)
      × (Hex.decode text ≡ some (iv ++ mode.encrypt key iv (pad plain 16)))

  -- On an IV and whole blocks the padding decides.
  decrypt_blocks :
      (text raw : Bytes)
      → valid_cbc_key_len (length key) ≡ true
      → Hex.decode text ≡ some raw
      → 16 ≤ length raw
      → (length raw - 16) % 16 ≡ 0
      → decrypt_cbc mode key text ≡ unpad (mode.decrypt key (take 16 raw) (drop 16 raw)) 16
  unfolding decrypt_cbc
  decrypt_blocks text raw hk good long aligned =
      rw
        (
          hk,
          good,
          le→ltb (length raw) 16 long,
          slice-in_range 0 16 raw (omega arith) long,
          slice_from-in_range 16 raw long,
          eq→== (length (drop 16 raw) % 16) 0 (omega (arith, length-drop 16 raw)),
          eq→== (length (take 16 raw)) 16 (omega (arith, length-take 16 raw)),
        )
        refl

  -- Every other text is refused.
  refused :
      (text : Bytes)
      → ((e : Error) × (decrypt_cbc mode key text ≡ err e))
        ⊎ ((valid_cbc_key_len (length key) ≡ true)
            × (raw : Bytes) × (Hex.decode text ≡ some raw)
            × (16 ≤ length raw)
            × ((length raw - 16) % 16 ≡ 0))
  unfolding decrypt_cbc
  refused text = elim (Bool-cases (valid_cbc_key_len (length key))) [
    | inr bad ↦ inl (invalid_key, rw bad refl)
    | inl hk ↦ elim (Option-cases (Hex.decode text)) [
      | inl bad ↦ inl (invalid_ciphertext, rw (hk, bad) refl)
      | inr (raw, good) ↦ elim (Bool-cases (ltb (length raw) 16)) [
        | inl few ↦ inl (ciphertext_too_short, rw (hk, good, few) refl)
        | inr enough ↦
            let long : 16 ≤ length raw = ltb→le _ _ enough in
            let iv = slice-in_range 0 16 raw (omega arith) long in
            let body = slice_from-in_range 16 raw long in
            elim (Bool-cases (length (drop 16 raw) % 16 == 0)) [
              | inr part ↦
                  inl (ciphertext_not_block_aligned, rw (hk, good, enough, iv, body, part) refl)
              | inl whole ↦ inr (
                hk,
                raw,
                good,
                long,
                omega (arith, length-drop 16 raw, ==→eq (length (drop 16 raw) % 16) 0 whole),
              )
            ]
      ]
    ]
  ]

  decrypted : (text plain : Bytes) → decrypt_cbc mode key text ≡ ok plain → IsCbcOf text plain
  decrypted text plain e = elim (refused text) [
    | inl (x, bad) ↦ cc
    | inr (hk, raw, good, long, aligned) ↦
        let iv : Bytes = take 16 raw in
        let body : Bytes = drop 16 raw in
        let padded : mode.decrypt key iv body ≡ pad plain 16 =
          (unpad_iff (mode.decrypt key iv body) plain).0
            (sym (decrypt_blocks text raw hk good long aligned) ∙ e) in
        let sealed : mode.encrypt key iv (pad plain 16) ≡ body =
          ap (λ t. mode.encrypt key iv t) (sym padded) ∙ mode.encrypt-decrypt key iv body in
        (
          hk,
          iv,
          omega (arith, length-take 16 raw),
          good ∙ ap some (sym (ap (λ t. iv ++ t) sealed ∙ take-append-drop 16 raw)),
        )
  ]

  accepted : (text plain : Bytes) → IsCbcOf text plain → decrypt_cbc mode key text ≡ ok plain
  accepted text plain (hk, iv, long, good) =
      let padded : Bytes = pad plain 16 in
      let body : Bytes = mode.encrypt key iv padded in
      let size : length body ≡ length plain + (16 - length plain % 16) =
        mode.length-encrypt key iv padded ∙ length-pad plain in
      let whole : length (iv ++ body) ≡ 16 + length body = omega (arith, length-append iv body) in
      decrypt_blocks text (iv ++ body) hk good (omega arith) (omega arith)
      ∙ rw (take-append 16 iv body long, drop-append 16 iv body long)
          ((unpad_iff (mode.decrypt key iv body) plain).1 (mode.decrypt-encrypt key iv padded))

  -- `DecryptCBC` returns `plain` exactly if the key has 16, 24 or 32 bytes and the text is the hex
  -- of an IV and of the encryption, under the key and the IV, of `plain` with its padding.
  pub decrypt_cbc_iff :
      (text plain : Bytes) → (decrypt_cbc mode key text ≡ ok plain) ↔ IsCbcOf text plain
  decrypt_cbc_iff text plain = (decrypted text plain, accepted text plain)

  -- `DecryptCBC` never panics.
  pub decrypt_cbc-ne-panic : (text : Bytes) → decrypt_cbc mode key text ≢ panic
  decrypt_cbc-ne-panic text bad = elim (refused text) [
    | inl (x, e) ↦ cc
    | inr (hk, raw, good, long, aligned) ↦
        unpad-ne-panic (mode.decrypt key (take 16 raw) (drop 16 raw))
          (sym (decrypt_blocks text raw hk good long aligned) ∙ bad)
  ]

  abbrev pub body_of : Bytes → Reader → Bytes
  body_of plain r = mode.encrypt key (take 16 r.content) (pad plain 16)

  pub body-IsBytes :
      (plain : Bytes) (r : Reader)
      → IsBytes plain
      → IsBytes r.content
      → IsBytes (take 16 r.content ++ body_of plain r)
  body-IsBytes plain r hp hr =
      All-append IsByte (take 16 r.content) (body_of plain r) (All-take IsByte 16 r.content hr)
        (mode.encrypt-IsBytes key (take 16 r.content) (pad plain 16) (pad-IsBytes plain hp))

  -- The text is the hex of the IV and of the encrypted blocks.
  pub encrypt_cbc_lem :
      (plain : Bytes) (r : Reader)
      → valid_cbc_key_len (length key) ≡ true
      → 16 ≤ length r.content
      → encrypt_cbc mode key plain r ≡ (
        ok (Hex.encode (take 16 r.content ++ body_of plain r)),
        record r { content = drop 16 r.content },
      )
  unfolding encrypt_cbc
  encrypt_cbc_lem plain r hk enough =
      rw
        (
          hk,
          draw-enough 16 r enough,
          eq→== (length (take 16 r.content)) 16 (omega (arith, length-take 16 r.content)),
          eq→== (length (pad plain 16) % 16) 0 (omega (arith, length-pad plain)),
        )
        refl

  -- With a key of 16, 24 or 32 bytes and 16 bytes in the source, `EncryptCBC` returns the hex of
  -- 16 bytes and of whole blocks, 16 bytes more than the plaintext and its padding, uses 16 bytes
  -- of the source up, and `DecryptCBC` with the key returns the plaintext.
  pub decrypt_cbc-encrypt_cbc :
      (plain : Bytes) (r : Reader)
      → valid_cbc_key_len (length key) ≡ true
      → IsBytes plain
      → IsBytes r.content
      → 16 ≤ length r.content
      → (text : Bytes) × (encrypt_cbc mode key plain r
          ≡ (ok text, record r { content = drop 16 r.content }))
        × (length text ≡ (length plain + (16 - length plain % 16) + 16) * 2)
        × (decrypt_cbc mode key text ≡ ok plain)
  decrypt_cbc-encrypt_cbc plain r hk hp hr enough =
      let iv : Bytes = take 16 r.content in
      let body : Bytes = body_of plain r in
      let long : length iv ≡ 16 = omega (arith, length-take 16 r.content) in
      (
        Hex.encode (iv ++ body),
        encrypt_cbc_lem plain r hk enough,
        omega (
          arith,
          Hex.length-encode (iv ++ body),
          length-append iv body,
          mode.length-encrypt key iv (pad plain 16),
          length-pad plain,
        ),
        accepted (Hex.encode (iv ++ body)) plain
            (hk, iv, long, Hex.decode-encode (iv ++ body) (body-IsBytes plain r hp hr)),
      )
