-- ===== src/Vectors/Blocks.antt =====
-- The vectors of CBC: the padding of the generator, and what the package does with a vector.
use crypt.Base.{
  ℕ, ◌%◌, ◌==◌, eq→==, true, false, All-append, take_all, drop_all, suc, zero, ◌≡◌, refl, ap, [],
  ◌∷◌, ◌++◌, some, length, replicate, arith,
}
use crypt.Base.Outcome.{ok}
use crypt.Wire.{Bytes, IsByte}
use crypt.Wire.Hex
use crypt.Entropy.{draw}
use crypt.Cbc.Padding.{pad, length-pad, pad-IsBytes}
use crypt.Cbc.{Mode}
use crypt.Cbc.Encrypt.{encrypt_cbc}
use crypt.Cbc.Decrypt.{decrypt_cbc}
use crypt.Cbc.Laws.{decrypt_cbc_iff}
use crypt.Vectors.Cbc.{CbcSpec, CbcVector, cbc_vector}
use crypt.Entropy.Laws.{draw-enough}
use crypt.Vectors.{fill_from, pkcs7_pad}

fill_from-append :
    (buf : Bytes) (n b : ℕ) → fill_from (length buf) b (buf ++ replicate n 0) ≡ buf ++ replicate n b
unfolding fill_from
fill_from-append [] zero b = refl
fill_from-append [] (suc n) b = ap (λ t. b ∷ t) (fill_from-append [] n b)
fill_from-append (x ∷ buf) n b = ap (λ t. x ∷ t) (fill_from-append buf n b)

-- `pkcs7Pad` of the generator is `pad` of the package.
pub pkcs7_pad-pad : (buf : Bytes) (size : ℕ) → pkcs7_pad buf size ≡ pad buf size
unfolding pkcs7_pad pad
pkcs7_pad-pad buf size = fill_from-append buf _ _

-- `EncryptCBC` that draws the IV returns the text, and `DecryptCBC` reads it.
abbrev pub CbcAgrees : Mode → CbcVector → Type 0
CbcAgrees mode v =
    (key : Bytes) × (iv : Bytes) × (plain : Bytes) × (Hex.decode v.spec.key_hex ≡ some key)
    × (Hex.decode v.spec.iv_hex ≡ some iv)
    × (Hex.decode v.spec.plaintext_hex ≡ some plain)
    × (encrypt_cbc mode key plain (record { content = iv; faulty = false })
        ≡ (ok v.expected_hex, record { content = []; faulty = false }))
    × (decrypt_cbc mode key v.expected_hex ≡ ok plain)

draw_all :
    (n : ℕ) (bytes : Bytes)
    → length bytes ≡ n
    → draw n (record { content = bytes; faulty = false })
      ≡ (ok bytes, record { content = []; faulty = false })
draw_all n bytes long =
    rw
      (
        draw-enough n (record { content = bytes; faulty = false }) (omega arith),
        take_all n bytes (omega arith),
        drop_all n bytes (omega arith),
      )
      refl

pub cbc_vector-agrees :
    (mode : Mode) (s : CbcSpec) (key iv plain : Bytes)
    → Hex.decode s.key_hex ≡ some key
    → Hex.decode s.iv_hex ≡ some iv
    → Hex.decode s.plaintext_hex ≡ some plain
    → length key ≡ 32
    → length iv ≡ 16
    → (v : CbcVector) × (cbc_vector mode s ≡ ok v) × CbcAgrees mode v
unfolding cbc_vector encrypt_cbc
cbc_vector-agrees mode s key iv plain hk hi hp long_key long_iv =
    let padded : Bytes = pad plain 16 in
    let body : Bytes = mode.encrypt key iv padded in
    let bytes = Hex.decode-bytes s.iv_hex iv hi in
    let plain_bytes = Hex.decode-bytes s.plaintext_hex plain hp in
    let whole : (length padded % 16 == 0) ≡ true =
      eq→== (length padded % 16) 0 (omega (arith, length-pad plain)) in
    let v : CbcVector = record { spec = s; expected_hex = Hex.encode (iv ++ body) } in
    (
      v,
      rw
          (
            hp,
            Hex.decode_prefix-decode s.key_hex key hk,
            Hex.decode_prefix-decode s.iv_hex iv hi,
            long_key,
            pkcs7_pad-pad plain 16,
            long_iv,
            whole,
          )
          refl,
      (
        key,
        iv,
        plain,
        hk,
        hi,
        hp,
        rw (long_key, draw_all 16 iv long_iv, long_iv, whole) refl,
        (decrypt_cbc_iff mode key v.expected_hex plain).1 (
          rw long_key refl,
          iv,
          long_iv,
          Hex.decode-encode (iv ++ body) (
              All-append IsByte iv body bytes
                (mode.encrypt-IsBytes key iv padded (pad-IsBytes plain plain_bytes))),
        ),
      ),
    )
