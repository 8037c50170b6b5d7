-- ===== src/ChaCha/Laws.antt =====
-- `SealChaCha20` and `OpenChaCha20`: what is accepted, the round trip, and the two versions apart.
use crypt.Base.{
  ◌≤◌, ◌≡◌, ◌≢◌, ◌↔◌, refl, ◌∙◌, ◌++◌, length, take, drop, arith, All-take, length-take, Bool-cases,
  inl, inr, ◌==◌, ==→eq, eq→==,
}
use crypt.Base.Outcome.{ok, err, invalid_key, unsupported_version}
use crypt.Wire.{Bytes, IsByte, IsBytes}
use crypt.Entropy.{Reader}
use crypt.Entropy.Laws.{draw-enough}
use crypt.Cipher.{Aead, new_chacha20_32}
use crypt.Format.{version_aead_v1, version_aead_v2}
use crypt.Format.Sealed.{token_of, seal_frame_lem, token_of-IsTokenOf, length-frame}
use crypt.Format.Layout.{check_frame_other}
use crypt.Gcm.Accepts.{open_token-Opens, open_token_iff}
use crypt.Format.Tokens.{IsTokenOf, Opens, opens_iff}
use crypt.Gcm.Seal.{pick_nonce}
use crypt.Gcm.Open.{open_token}
use crypt.ChaCha.Seal.{seal_chacha20, seal_chacha20_with_nonce}
use crypt.ChaCha.Open.{open_chacha20}

module _ (c : Aead) (key aad : Bytes) where
  pub open_chacha20-Opens :
      length key ≡ 32 → Opens c version_aead_v2 key aad (λ token. open_chacha20 c key token aad)
  unfolding open_chacha20
  open_chacha20-Opens h = record {
    on_decoded = λ token raw e. rw (h, e, new_chacha20_32 key h) refl;
    on_undecodable = λ token e. rw (h, e) refl;
  }

  open_chacha20-bad_key :
      (token : Bytes) → length key ≢ 32 → open_chacha20 c key token aad ≡ err invalid_key
  unfolding open_chacha20
  open_chacha20-bad_key token h = ground arith

  -- `OpenChaCha20` returns `plain` exactly if the key has 32 bytes and the token decodes to the
  -- bytes of a version 2 sealing of `plain`, under some nonce, with this key and additional data.
  pub open_chacha20_iff :
      (token plain : Bytes)
      → (open_chacha20 c key token aad ≡ ok plain)
        ↔ ((length key ≡ 32) × IsTokenOf c version_aead_v2 key aad token plain)
  open_chacha20_iff token plain = (
    λ e. elim (Bool-cases (length key == 32)) [
      | inr no_key ↦ cc (open_chacha20-bad_key token (λ h. cc (eq→== _ _ h)))
      | inl key_32 ↦
          let h : length key ≡ 32 = ==→eq _ _ key_32 in
          (h, (opens_iff c version_aead_v2 key aad (open_chacha20-Opens h) token plain).0 e)
    ],
    λ (h, s). (opens_iff c version_aead_v2 key aad (open_chacha20-Opens h) token plain).1 s,
  )

seal_chacha20_lem :
    (c : Aead) (key plain aad : Bytes) (r : Reader)
    → length key ≡ 32
    → 12 ≤ length r.content
    → seal_chacha20 c key plain aad r ≡ (
      ok (token_of c version_aead_v2 key (take 12 r.content) plain aad),
      record r { content = drop 12 r.content },
    )
unfolding seal_chacha20 seal_chacha20_with_nonce pick_nonce
seal_chacha20_lem c key plain aad r hk enough =
    rw
      (
        hk,
        new_chacha20_32 key hk,
        draw-enough 12 r enough,
        seal_frame_lem c version_aead_v2 key (take 12 r.content) plain aad
            (omega (arith, length-take 12 r.content)),
      )
      refl

-- With a key of 32 bytes and 12 bytes in the source, `SealChaCha20` returns a token, uses 12 bytes
-- of the source up, and `OpenChaCha20` of the token with the same key and additional data returns
-- the plaintext.
pub open_chacha20-seal :
    (c : Aead) (key plain aad : Bytes) (r : Reader)
    → length key ≡ 32
    → IsBytes plain
    → IsBytes r.content
    → 12 ≤ length r.content
    → (token : Bytes) × (seal_chacha20 c key plain aad r
        ≡ (ok token, record r { content = drop 12 r.content }))
      × (open_chacha20 c key token aad ≡ ok plain)
open_chacha20-seal c key plain aad r hk hp hr enough =
    let nonce : Bytes = take 12 r.content in
    let long : length nonce ≡ 12 = omega (arith, length-take 12 r.content) in
    let token : Bytes = token_of c version_aead_v2 key nonce plain aad in
    (
      token,
      seal_chacha20_lem c key plain aad r hk enough,
      (open_chacha20_iff c key aad token plain).1 (
        hk,
        token_of-IsTokenOf c version_aead_v2 key nonce plain aad (omega arith) long
            (All-take IsByte 12 r.content hr) hp,
      ),
    )

-- `Open` refuses what `OpenChaCha20` opens.
pub open_token-open_chacha20 :
    (c g : Aead) (key key' aad aad' token plain : Bytes)
    → length key' ≡ 32
    → open_chacha20 c key token aad ≡ ok plain
    → open_token g key' token aad' ≡ err unsupported_version
open_token-open_chacha20 c g key key' aad aad' token plain h e =
    let (_, (raw, good, (nonce, long, shape))) = (open_chacha20_iff c key aad token plain).0 e in
    (open_token-Opens g key' aad' h).on_decoded token raw good
    ∙ rw
        (
          shape,
          check_frame_other version_aead_v1 version_aead_v2 (nonce ++ c.seal key nonce plain aad)
              (omega arith)
              (omega (arith, length-frame c version_aead_v2 key nonce plain aad long)),
        )
        refl

-- The other way round: `OpenChaCha20` refuses what `Open` opens.
open_chacha20-open_token :
    (c g : Aead) (key key' aad aad' token plain : Bytes)
    → length key' ≡ 32
    → open_token g key token aad ≡ ok plain
    → open_chacha20 c key' token aad' ≡ err unsupported_version
open_chacha20-open_token c g key key' aad aad' token plain h e =
    let (_, (raw, good, (nonce, long, shape))) = (open_token_iff g key aad token plain).0 e in
    (open_chacha20-Opens c key' aad' h).on_decoded token raw good
    ∙ rw
        (
          shape,
          check_frame_other version_aead_v2 version_aead_v1 (nonce ++ g.seal key nonce plain aad)
              (omega arith)
              (omega (arith, length-frame g version_aead_v1 key nonce plain aad long)),
        )
        refl

-- The versions are kept apart: with any key of 32 bytes and any additional data, `Open` refuses
-- what `OpenChaCha20` opens, and `OpenChaCha20` refuses what `Open` opens, both by
-- `ErrUnsupportedVersion`.
pub versions_apart :
    (c g : Aead) (key key' aad aad' token token' plain plain' : Bytes)
    → length key' ≡ 32
    → open_chacha20 c key token aad ≡ ok plain
    → open_token g key token' aad ≡ ok plain'
    → (open_token g key' token aad' ≡ err unsupported_version)
      × (open_chacha20 c key' token' aad' ≡ err unsupported_version)
versions_apart c g key key' aad aad' token token' plain plain' h e e' = (
  open_token-open_chacha20 c g key key' aad aad' token plain h e,
  open_chacha20-open_token c g key key' aad aad' token' plain' h e',
)
