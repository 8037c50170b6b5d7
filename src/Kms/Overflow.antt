-- ===== src/Kms/Overflow.antt =====
-- `EnvelopeSealer.Open` on any token: below 4 GiB no slice is out of range, and above one can be.
use crypt.Base.{
  ℕ, suc, ◌+◌, ◌%◌, ◌^◌, ◌≤◌, ◌<◌, ◌≡◌, ◌≢◌, refl, [], ◌∷◌, ◌++◌, length, some, Option-cases, arith,
  take, le→ltb, ltb, ltb→le, ◌==◌, length-append, length-take, All-append, Bool-cases, inl, inr,
}
use crypt.Base.Outcome.{
  panic, Result-cases, first, slice-append, slice-in_range, slice_backwards, slice_from-in_range,
}
use crypt.Wire.{
  Bytes, IsByte, IsBytes, put_u32, u32-put_u32_only, u32_total, length-put_u32, put_u32-IsBytes,
}
use crypt.Wire.Base64
use crypt.Cipher.{Aead}
use crypt.Gcm.Accepts.{open_token-ne-panic}
use crypt.Kms.Seal.{EnvelopeSealer, version_envelope_v1}
use crypt.Kms.Open.{split_envelope, envelope_open}

split_envelope-ne-panic : (raw : Bytes) → length raw < 2 ^ 32 → split_envelope raw ≢ panic
unfolding split_envelope first
split_envelope-ne-panic [] short h = cc
split_envelope-ne-panic (v ∷ rest) short h = elim (Bool-cases (ltb (suc (length rest)) 5)) [
  | inl few ↦ cc (rw few at h)
  | inr enough ↦ elim (Bool-cases (v == version_envelope_v1)) [
    | inr other ↦ cc (rw (enough, other) at h)
    | inl six ↦
        let long : 5 ≤ suc (length rest) = ltb→le _ _ enough in
        let cut = slice-in_range 1 5 (v ∷ rest) (omega arith) long in
        let (n, read) = u32_total (take 4 rest) (omega (arith, length-take 4 rest)) in
        elim (Bool-cases (ltb (suc (length rest)) (5 + n))) [
          | inl beyond ↦ cc (rw (enough, six, cut, read, beyond) at h)
          | inr within ↦
              let fits : 5 + n ≤ suc (length rest) = ltb→le _ _ within in
              let near : (5 + n) % 2 ^ 32 ≡ 5 + n = omega arith in
              cc (
                rw
                  (
                    enough,
                    six,
                    cut,
                    read,
                    within,
                    near,
                    slice-in_range 5 (5 + n) (v ∷ rest) (omega arith) fits,
                    slice_from-in_range (5 + n) (v ∷ rest) fits,
                  )
                  at h)
        ]
  ]
]

-- If the service does not panic and the token decodes to fewer than 2 ^ 32 bytes,
-- `EnvelopeSealer.Open` does not panic, whatever length the token claims for its wrapped key.
pub envelope_open-ne-panic :
    (c : Aead) (e : EnvelopeSealer) (token aad : Bytes)
    → ((wrapped : Bytes) → e.kms.decrypt e.key_id wrapped ≢ panic)
    → ((raw : Bytes) → Base64.decode Base64.url token ≡ some raw → length raw < 2 ^ 32)
    → envelope_open c e token aad ≢ panic
unfolding envelope_open
envelope_open-ne-panic c e token aad calm short h =
    elim (Option-cases (Base64.decode Base64.url token)) [
      | inl bad ↦ cc (rw bad at h)
      | inr (raw, good) ↦ elim (Result-cases (split_envelope raw)) [
        | inl ((wrapped, inner), split) ↦ elim (Result-cases (e.kms.decrypt e.key_id wrapped)) [
          | inl (dek, unwrapped) ↦
              open_token-ne-panic c dek aad (Base64.encode Base64.url inner)
                (rw (good, split, unwrapped) at h)
          | inr (inl (x, failed)) ↦ cc (rw (good, split, failed) at h)
          | inr (inr panicked) ↦ calm wrapped panicked
        ]
        | inr (inl (x, refused)) ↦ cc (rw (good, refused) at h)
        | inr (inr panicked) ↦ split_envelope-ne-panic raw (short raw good) panicked
      ]
    ]

split_envelope_overflow :
    (n : ℕ) (rest : Bytes)
    → 2 ^ 32 ≤ n + 5
    → n < 2 ^ 32
    → n ≤ length rest
    → split_envelope (version_envelope_v1 ∷ (put_u32 n ++ rest)) ≡ panic
unfolding split_envelope first
split_envelope_overflow n rest high low enough =
    let field : Bytes = put_u32 n in
    let long : length (field ++ rest) ≡ 4 + length rest =
      omega (arith, length-append field rest, length-put_u32 n) in
    rw
      (
        le→ltb (suc (length (field ++ rest))) 5 (omega arith),
        slice-append 1 5 (version_envelope_v1 ∷ []) field rest refl
            (omega (arith, length-put_u32 n)),
        u32-put_u32_only n low,
        le→ltb (suc (length (field ++ rest))) (5 + n) (omega arith),
        slice_backwards 5 ((5 + n) % 2 ^ 32) (version_envelope_v1 ∷ (field ++ rest)) (omega arith),
      )
      refl

-- A token of more than 4 GiB whose length field holds 2 ^ 32 - 5 or more, with as many bytes
-- behind it, passes the 64-bit test and makes `EnvelopeSealer.Open` panic: the upper bound of the
-- slice of the wrapped key is computed with 32 bits and wraps around.
pub envelope_open_overflow :
    (c : Aead) (e : EnvelopeSealer) (n : ℕ) (rest aad : Bytes)
    → IsBytes rest
    → 2 ^ 32 ≤ n + 5
    → n < 2 ^ 32
    → n ≤ length rest
    → envelope_open c e (Base64.encode Base64.url (version_envelope_v1 ∷ (put_u32 n ++ rest))) aad
      ≡ panic
unfolding envelope_open
envelope_open_overflow c e n rest aad bytes high low enough =
    rw
      (
        Base64.RoundTrip.decode-encode Base64.url Base64.RoundTrip.url-IsAlphabet
            (version_envelope_v1 ∷ (put_u32 n ++ rest))
            (omega arith, All-append IsByte (put_u32 n) rest (put_u32-IsBytes n) bytes),
        split_envelope_overflow n rest high low enough,
      )
      refl
