-- ===== src/Asymmetric/Accepts.antt =====
-- Which tokens `OpenAsymmetric` opens, and that it answers every other one by an error.
use crypt.Base.{
  ℕ, ◌≤◌, ◌≡◌, ◌⊎◌, ◌↔◌, ◌≢◌, inl, inr, refl, sym, ap, append_assoc, ◌∙◌, [], ◌∷◌, ◌++◌, Bool-cases,
  Option-cases, some, length, ltb, ltb→le, le→ltb, ◌==◌, ==→eq, take, drop, take-append-drop, arith,
  length-append, length-take, length-drop,
}
use mathlib.Core.Path.{subst}
use crypt.Base.Outcome.{
  Error, ok, err, panic, first, slice_from, slice-append, slice_from-append, invalid_key,
  invalid_ciphertext, ciphertext_too_short, unsupported_version, bad_agreement, tampered,
}
use crypt.Wire.{Bytes}
use crypt.Wire.Base64
use crypt.Cipher.{Aead, new_chacha20_32, open_with_12}
use crypt.Asymmetric.{Curve, version_asymmetric_v1}
use crypt.Asymmetric.Open.{open_asymmetric}

slice_from-two :
    (v : ℕ) (eph nonce body : Bytes)
    → length eph ≡ 32
    → length nonce ≡ 12
    → slice_from 45 (v ∷ (eph ++ (nonce ++ body))) ≡ ok body
slice_from-two v eph nonce body he hn =
    ap (λ t. slice_from 45 (v ∷ t)) (sym (append_assoc eph nonce body))
    ∙ slice_from-append 45 (v ∷ (eph ++ nonce)) body (omega (arith, length-append eph nonce))

-- The bytes of a token: the version, the key of the sender, the nonce and the sealing.
abbrev pub raw_of : Aead → Bytes → Bytes → Bytes → Bytes → Bytes
raw_of chacha eph shared nonce plain =
    version_asymmetric_v1 ∷ (eph ++ (nonce ++ chacha.seal shared nonce plain eph))

module _ (curve : Curve) (chacha : Aead) (priv token : Bytes) where
  -- The token is a sealing under the secret that the private key shares with the key in the token.
  abbrev pub IsSealedFor : Bytes → Type 0
  IsSealedFor plain =
      (length priv ≡ 32)
      × (eph : Bytes) × (nonce : Bytes) × (shared : Bytes) × (length eph ≡ 32)
      × (length nonce ≡ 12)
      × (curve.x25519 priv eph ≡ some shared)
      × (Base64.decode Base64.url token ≡ some (raw_of chacha eph shared nonce plain))

  -- An error, or the plaintext of such a token.
  abbrev Answered : Type 0
  Answered =
      ((e : Error) × (open_asymmetric curve chacha priv token ≡ err e))
      ⊎ ((plain : Bytes) × (open_asymmetric curve chacha priv token ≡ ok plain) × IsSealedFor plain)

  on_parts :
      (v : ℕ) (eph nonce body : Bytes)
      → length priv ≡ 32
      → length eph ≡ 32
      → length nonce ≡ 12
      → 16 ≤ length body
      → Base64.decode Base64.url token ≡ some (v ∷ (eph ++ (nonce ++ body)))
      → Answered
  unfolding open_asymmetric first
  on_parts v eph nonce body hk he hn hb good =
      let long =
        le→ltb (length (v ∷ (eph ++ (nonce ++ body)))) 61
          (omega (arith, length-append eph (nonce ++ body), length-append nonce body)) in
      let eph_cut = slice-append 1 33 (v ∷ []) eph (nonce ++ body) refl (omega arith) in
      let nonce_cut = slice-append 33 45 (v ∷ eph) nonce body (omega arith) (omega arith) in
      let body_cut = slice_from-two v eph nonce body he hn in
      elim (Bool-cases (v == 5)) [
        | inr other ↦ inl (unsupported_version, rw (hk, good, long, other) refl)
        | inl current ↦ elim (Option-cases (curve.x25519 priv eph)) [
          | inl fails ↦ inl (
            bad_agreement,
            rw (hk, good, long, current, eph_cut, nonce_cut, body_cut, fails) refl,
          )
          | inr (shared, agreed) ↦
              let bound = new_chacha20_32 shared (curve.length-x25519 priv eph shared agreed) in
              let opening = open_with_12 chacha shared nonce body eph hn in
              elim (Option-cases (chacha.open_ shared nonce body eph)) [
                | inl refused ↦ inl (
                  tampered,
                  rw
                      (
                        hk, good, long, current, eph_cut, nonce_cut, body_cut, agreed, bound,
                        opening, refused,
                      )
                      refl,
                )
                | inr (plain, opened) ↦
                    let sealed = chacha.seal-open shared nonce body eph plain opened in
                    let version : v ≡ version_asymmetric_v1 = ==→eq v 5 current in
                    inr (
                      plain,
                      rw
                          (
                            hk, good, long, current, eph_cut, nonce_cut, body_cut, agreed, bound,
                            opening, opened,
                          )
                          refl,
                      (
                        hk,
                        eph,
                        nonce,
                        shared,
                        he,
                        hn,
                        agreed,
                        good
                            ∙ ap some (
                                ap (λ b. v ∷ (eph ++ (nonce ++ b))) (sym sealed)
                                ∙ ap
                                    (λ w.
                                      w ∷ (eph ++ (nonce ++ chacha.seal shared nonce plain eph)))
                                    version),
                      ),
                    )
              ]
        ]
      ]

  on_raw :
      (raw : Bytes)
      → length priv ≡ 32
      → 61 ≤ length raw
      → Base64.decode Base64.url token ≡ some raw
      → Answered
  on_raw [] hk long good = absurd (omega arith)
  on_raw (v ∷ rest) hk long good =
      let eph : Bytes = take 32 rest in
      let behind : Bytes = drop 32 rest in
      let nonce : Bytes = take 12 behind in
      let body : Bytes = drop 12 behind in
      let size = length-drop 32 rest in
      let parts : rest ≡ eph ++ (nonce ++ body) =
        sym (ap (λ t. eph ++ t) (take-append-drop 12 behind) ∙ take-append-drop 32 rest) in
      on_parts v eph nonce body hk (omega (arith, length-take 32 rest))
        (omega (arith, length-take 12 behind)) (omega (arith, length-drop 12 behind))
        (good ∙ ap (λ t. some (v ∷ t)) parts)

  answered : Answered
  unfolding open_asymmetric
  answered = elim (Bool-cases (length priv == 32)) [
    | inr bad ↦ inl (invalid_key, rw bad refl)
    | inl key_32 ↦ elim (Option-cases (Base64.decode Base64.url token)) [
      | inl bad ↦ inl (invalid_ciphertext, rw (key_32, bad) refl)
      | inr (raw, good) ↦ elim (Bool-cases (ltb (length raw) 61)) [
        | inl few ↦ inl (ciphertext_too_short, rw (key_32, good, few) refl)
        | inr enough ↦
            on_raw raw (==→eq (length priv) 32 key_32) (ltb→le (length raw) 61 enough) good
      ]
    ]
  ]

  pub accepted :
      (plain : Bytes) → IsSealedFor plain → open_asymmetric curve chacha priv token ≡ ok plain
  unfolding open_asymmetric first
  accepted plain (hk, eph, nonce, shared, he, hn, agreed, good) =
      let body : Bytes = chacha.seal shared nonce plain eph in
      let size = chacha.length-seal shared nonce plain eph in
      rw
        (
          hk,
          good,
          le→ltb (length (raw_of chacha eph shared nonce plain)) 61
              (omega (arith, length-append eph (nonce ++ body), length-append nonce body)),
          slice-append 1 33 (version_asymmetric_v1 ∷ []) eph (nonce ++ body) refl (omega arith),
          slice-append 33 45 (version_asymmetric_v1 ∷ eph) nonce body (omega arith) (omega arith),
          slice_from-two version_asymmetric_v1 eph nonce body he hn,
          agreed,
          new_chacha20_32 shared (curve.length-x25519 priv eph shared agreed),
          open_with_12 chacha shared nonce body eph hn,
          chacha.open-seal shared nonce plain eph,
        )
        refl

  -- `OpenAsymmetric` never panics, and it returns a plaintext exactly if the private key has 32
  -- bytes and the token decodes to version 5, a public key, a nonce and the sealing of the plaintext
  -- under the secret that the private key shares with that public key, which is also the additional
  -- data.
  pub open_asymmetric_iff :
      (plain : Bytes)
      → (open_asymmetric curve chacha priv token ≢ panic)
        × ((open_asymmetric curve chacha priv token ≡ ok plain) ↔ IsSealedFor plain)
  open_asymmetric_iff plain = elim answered [
    | inl (e, failed) ↦ ((λ bad. cc), ((λ opened. cc), accepted plain))
    | inr (plain', opened', sealed') ↦ (
      (λ bad. cc),
      (
        (λ opened. let both : plain' ≡ plain = cc in subst (λ p. IsSealedFor p) both sealed'),
        accepted plain,
      ),
    )
  ]
