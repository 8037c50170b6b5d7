-- ===== src/Format/Layout.antt =====
-- Reading what was laid out, and what the readers do on any bytes.
use crypt.Base.{
  ℕ, ◌+◌, ◌≤◌, ◌≡◌, ◌≢◌, refl, ap, [], ◌∷◌, ◌++◌, length, arith, take, drop, length-append,
  length-take, length-drop, take-append-drop, take-append, drop-append,
}
use crypt.Base.Outcome.{
  ok, err, panic, or_fail, first, unsupported_version, tampered, slice-in_range,
  slice_from-in_range,
}
use crypt.Wire.{Bytes}
use crypt.Cipher.{Aead, open_with_12}
use crypt.Format.{check_frame, open_frame}

-- The nonce and the body of a frame, which follow the version byte.
abbrev pub nonce_of : Bytes → Bytes
nonce_of raw = take 12 (drop 1 raw)

abbrev pub body_of : Bytes → Bytes
body_of raw = drop 13 raw

-- On thirteen bytes or more nothing is out of range.
pub open_frame_lem :
    (c : Aead) (key raw aad : Bytes)
    → 13 ≤ length raw
    → open_frame c key raw aad ≡ or_fail (c.open_ key (nonce_of raw) (body_of raw) aad) tampered
unfolding open_frame
open_frame_lem c key raw aad h =
    rw
      (
        slice-in_range 1 13 raw (omega arith) h,
        slice_from-in_range 13 raw h,
        open_with_12 c key (nonce_of raw) (body_of raw) aad
            (omega (arith, length-take 12 (drop 1 raw), length-drop 1 raw)),
      )
      refl

-- The parts of a frame that was laid out.
pub nonce_of-frame :
    (v : ℕ) (nonce body : Bytes) → length nonce ≡ 12 → nonce_of (v ∷ (nonce ++ body)) ≡ nonce
nonce_of-frame v nonce body h = take-append 12 nonce body h

pub body_of-frame :
    (v : ℕ) (nonce body : Bytes) → length nonce ≡ 12 → body_of (v ∷ (nonce ++ body)) ≡ body
body_of-frame v nonce body h = drop-append 12 nonce body h

-- `check_frame` passes exactly the byte strings of 29 bytes or more behind the version.
pub check_frame_passes :
    (version v : ℕ) (rest : Bytes)
    → v ≡ version
    → 28 ≤ length rest
    → check_frame version (v ∷ rest) ≡ ok tt
unfolding check_frame first
check_frame_passes version v rest e h = ground arith

pub check_frame_other :
    (version v : ℕ) (rest : Bytes)
    → v ≢ version
    → 28 ≤ length rest
    → check_frame version (v ∷ rest) ≡ err unsupported_version
unfolding check_frame first
check_frame_other version v rest e h = ground arith

pub check_frame_passed :
    (version : ℕ) (raw : Bytes)
    → check_frame version raw ≡ ok tt
    → (rest : Bytes) × (raw ≡ version ∷ rest) × (28 ≤ length rest)
unfolding check_frame first
check_frame_passed version [] h = cc
check_frame_passed version (v ∷ rest) h = (rest, ground arith, ground arith)

pub check_frame-ne-panic : (version : ℕ) (raw : Bytes) → check_frame version raw ≢ panic
unfolding check_frame first
check_frame-ne-panic version [] h = cc
check_frame-ne-panic version (v ∷ rest) h = ground arith

pub check_frame-ne-tampered : (version : ℕ) (raw : Bytes) → check_frame version raw ≢ err tampered
unfolding check_frame first
check_frame-ne-tampered version [] h = cc
check_frame-ne-tampered version (v ∷ rest) h = ground arith

pub frame-length :
    (v : ℕ) (nonce body : Bytes)
    → length nonce ≡ 12
    → length (v ∷ (nonce ++ body)) ≡ length body + 13
frame-length v nonce body h = omega (arith, length-append nonce body)

-- A frame is its three parts.
pub frame-parts :
    (v : ℕ) (rest : Bytes) → v ∷ (nonce_of (v ∷ rest) ++ body_of (v ∷ rest)) ≡ v ∷ rest
frame-parts v rest = ap (λ t. v ∷ t) (take-append-drop 12 rest)

-- What was laid out behind any version is opened as the cipher opens it.
pub open_frame-frame :
    (c : Aead) (key : Bytes) (v : ℕ) (nonce body aad : Bytes)
    → length nonce ≡ 12
    → open_frame c key (v ∷ (nonce ++ body)) aad ≡ or_fail (c.open_ key nonce body aad) tampered
open_frame-frame c key v nonce body aad h =
    rw
      (
        open_frame_lem c key (v ∷ (nonce ++ body)) aad (omega (arith, frame-length v nonce body h)),
        nonce_of-frame v nonce body h,
        body_of-frame v nonce body h,
      )
      refl
