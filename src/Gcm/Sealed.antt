-- ===== src/Gcm/Sealed.antt =====
-- What `Seal` returns: the token that the format describes.
use crypt.Base.{
  Bool-cases, inl, inr, ltb, ltb→lt, ltb→le, ==→eq, ◌==◌, false, ◌<◌, ◌≤◌, ◌≡◌, refl, length, take,
  drop, arith, length-take,
}
use crypt.Base.Outcome.{err, invalid_key, random_failure, ok}
use crypt.Base.{[]}
use crypt.Wire.{Bytes}
use crypt.Entropy.{Reader}
use crypt.Entropy.Laws.{draw-enough, draw_short}
use crypt.Cipher.{Aead, new_gcm_32}
use crypt.Format.{version_aead_v1}
use crypt.Format.Sealed.{token_of, seal_frame_lem}
use crypt.Gcm.Seal.{seal, seal_with_nonce, pick_nonce}

-- With a key of 32 bytes and 12 bytes in the source, `Seal` takes them for the nonce and returns
-- the token of the format, version 1.
pub seal_lem :
    (c : Aead) (key plain aad : Bytes) (r : Reader)
    → length key ≡ 32
    → 12 ≤ length r.content
    → seal c key plain aad r ≡ (
      ok (token_of c version_aead_v1 key (take 12 r.content) plain aad),
      record r { content = drop 12 r.content },
    )
unfolding seal seal_with_nonce pick_nonce
seal_lem c key plain aad r hk enough =
    rw
      (
        hk,
        new_gcm_32 key hk,
        draw-enough 12 r enough,
        seal_frame_lem c version_aead_v1 key (take 12 r.content) plain aad
            (omega (arith, length-take 12 r.content)),
      )
      refl

seal-bad_key :
    (c : Aead) (key plain aad : Bytes) (r : Reader)
    → (length key == 32) ≡ false
    → seal c key plain aad r ≡ (err invalid_key, r)
unfolding seal seal_with_nonce
seal-bad_key c key plain aad r h = rw h refl

-- A source with fewer than 12 bytes is used up.
pub seal-no_entropy :
    (c : Aead) (key plain aad : Bytes) (r : Reader)
    → length key ≡ 32
    → length r.content < 12
    → seal c key plain aad r ≡ (err random_failure, record r { content = [] })
unfolding seal seal_with_nonce pick_nonce
seal-no_entropy c key plain aad r hk few = rw (hk, new_gcm_32 key hk, draw_short 12 r few) refl

-- `Seal` succeeds only with a key of 32 bytes and 12 bytes in the source.
pub seal_returns :
    (c : Aead) (key plain aad : Bytes) (r r' : Reader) (token : Bytes)
    → seal c key plain aad r ≡ (ok token, r')
    → (length key ≡ 32)
      × (12 ≤ length r.content)
      × (token ≡ token_of c version_aead_v1 key (take 12 r.content) plain aad)
      × (r' ≡ record r { content = drop 12 r.content })
seal_returns c key plain aad r r' token e = elim (Bool-cases (length key == 32)) [
  | inr no_key ↦ cc (seal-bad_key c key plain aad r no_key)
  | inl key_32 ↦ elim (Bool-cases (ltb (length r.content) 12)) [
    | inl few ↦
        cc (
          e,
          seal-no_entropy c key plain aad r (==→eq _ _ key_32) (ltb→lt (length r.content) 12 few),
        )
    | inr enough ↦
        let hk : length key ≡ 32 = ==→eq _ _ key_32 in
        let long : 12 ≤ length r.content = ltb→le _ _ enough in
        let sealed = seal_lem c key plain aad r hk long in
        (hk, long, ground (arith, sealed), ground (arith, sealed))
  ]
]
