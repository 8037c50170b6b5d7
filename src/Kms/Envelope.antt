-- ===== src/Kms/Envelope.antt =====
-- `EnvelopeSealer.Open` after `EnvelopeSealer.Seal`, with any service that keeps its contract.
use crypt.Base.{
  ℕ, suc, ◌+◌, ◌%◌, ◌^◌, ◌≤◌, ◌<◌, ◌≡◌, refl, [], ◌∷◌, ◌++◌, length, arith, take, drop, le→ltb,
  length-append, length-take, All-append, All-take, append_assoc,
}
use crypt.Base.Outcome.{ok, first, slice_from, slice-append, slice_from-append}
use crypt.Wire.{Bytes, IsByte, IsBytes, put_u32, u32-put_u32_only, length-put_u32, put_u32-IsBytes}
use crypt.Wire.Base64
use crypt.Entropy.{Reader}
use crypt.Cipher.{Aead}
use crypt.Format.{version_aead_v1}
use crypt.Format.Accepts.{frame}
use crypt.Format.Sealed.{token_of, frame-IsBytes, token_of-IsTokenOf, length-frame}
use crypt.Wire.Base64.Shape.{length-encode}
use crypt.Gcm.Sealed.{seal_lem}
use crypt.Gcm.Accepts.{open_token_iff}
use crypt.Kms.{Serves}
use crypt.Kms.Seal.{EnvelopeSealer, envelope, envelope_seal, version_envelope_v1}
use crypt.Kms.Open.{split_envelope, envelope_open}
use mathlib.Core.Path.{subst}

-- The envelope is split where it was joined.
pub split_envelope-envelope :
    (wrapped inner : Bytes)
    → length wrapped + 5 < 2 ^ 32
    → split_envelope (envelope wrapped inner) ≡ ok (wrapped, inner)
unfolding split_envelope envelope first
split_envelope-envelope wrapped inner fits =
    let n : ℕ = length wrapped in
    let small : n % 2 ^ 32 ≡ n = omega arith in
    let near : (5 + n) % 2 ^ 32 ≡ 5 + n = omega arith in
    let field : Bytes = put_u32 n in
    let behind : Bytes = field ++ (wrapped ++ inner) in
    let long : length behind ≡ 4 + n + length inner = omega (
      arith,
      length-append field (wrapped ++ inner),
      length-append wrapped inner,
      length-put_u32 n,
    ) in
    rw
      (
        small,
        le→ltb (suc (length behind)) 5 (omega arith),
        slice-append 1 5 (version_envelope_v1 ∷ []) field (wrapped ++ inner) refl
            (omega (arith, length-put_u32 n)),
        u32-put_u32_only n (omega arith),
        le→ltb (suc (length behind)) (5 + n) (omega arith),
        near,
        slice-append 5 (5 + n) (version_envelope_v1 ∷ field) wrapped inner
            (omega (arith, length-put_u32 n)) refl,
        inner_part,
      )
      refl
  where
    inner_part :
        slice_from
          (5 + length wrapped)
          (version_envelope_v1 ∷ (put_u32 (length wrapped) ++ (wrapped ++ inner)))
        ≡ ok inner
    inner_part =
        subst (λ t. slice_from (5 + length wrapped) (version_envelope_v1 ∷ t) ≡ ok inner)
          (append_assoc (put_u32 (length wrapped)) wrapped inner)
          (slice_from-append (5 + length wrapped)
            (version_envelope_v1 ∷ (put_u32 (length wrapped) ++ wrapped)) inner
            (omega (
              arith,
              length-append (put_u32 (length wrapped)) wrapped,
              length-put_u32 (length wrapped),
            )))

envelope-IsBytes :
    (wrapped inner : Bytes) → IsBytes wrapped → IsBytes inner → IsBytes (envelope wrapped inner)
unfolding envelope
envelope-IsBytes wrapped inner hw hi =
    let field : Bytes = put_u32 (length wrapped % 2 ^ 32) in
    (
      omega arith,
      All-append IsByte field (wrapped ++ inner) (put_u32-IsBytes (length wrapped % 2 ^ 32))
          (All-append IsByte wrapped inner hw hi),
    )

-- What `EnvelopeSealer.Seal` returns.
abbrev envelope_token : Aead → Bytes → Bytes → Bytes → Bytes → Bytes → Bytes
envelope_token c wrapped dek nonce plain aad =
    Base64.encode Base64.url (envelope wrapped (frame c version_aead_v1 dek nonce plain aad))

envelope_seal_lem :
    (c : Aead) (e : EnvelopeSealer) (plain aad dek wrapped : Bytes) (r r' : Reader)
    → e.kms.generate_data_key e.key_id r ≡ (ok (dek, wrapped), r')
    → length dek ≡ 32
    → IsBytes plain
    → IsBytes r'.content
    → 12 ≤ length r'.content
    → envelope_seal c e plain aad r ≡ (
      ok (envelope_token c wrapped dek (take 12 r'.content) plain aad),
      record r' { content = drop 12 r'.content },
    )
unfolding envelope_seal
envelope_seal_lem c e plain aad dek wrapped r r' generated hk hp hr' enough =
    let nonce : Bytes = take 12 r'.content in
    rw
      (
        generated,
        seal_lem c dek plain aad r' hk enough,
        Base64.RoundTrip.decode-encode Base64.url Base64.RoundTrip.url-IsAlphabet
            (frame c version_aead_v1 dek nonce plain aad)
            (frame-IsBytes c version_aead_v1 dek nonce plain aad (omega arith)
              (All-take IsByte 12 r'.content hr') hp),
      )
      refl

-- A token has 48 characters or more.
pub envelope_seal_long :
    (c : Aead) (e : EnvelopeSealer) (plain aad dek wrapped token : Bytes) (r r' r2 : Reader)
    → e.kms.generate_data_key e.key_id r ≡ (ok (dek, wrapped), r')
    → length dek ≡ 32
    → IsBytes plain
    → IsBytes r'.content
    → 12 ≤ length r'.content
    → 2 ≤ length wrapped
    → envelope_seal c e plain aad r ≡ (ok token, r2)
    → 48 ≤ length token
unfolding envelope
envelope_seal_long c e plain aad dek wrapped token r r' r2 generated hk hp hr' enough some_key
      sealed =
    let nonce : Bytes = take 12 r'.content in
    let inner : Bytes = frame c version_aead_v1 dek nonce plain aad in
    let same_call = envelope_seal_lem c e plain aad dek wrapped r r' generated hk hp hr' enough in
    let one : envelope_token c wrapped dek nonce plain aad ≡ token = cc in
    subst (λ (t : Bytes). 48 ≤ length t) one
      (omega (
        arith,
        length-encode Base64.url (envelope wrapped inner),
        length-append (put_u32 (length wrapped % 2 ^ 32)) (wrapped ++ inner),
        length-put_u32 (length wrapped % 2 ^ 32),
        length-append wrapped inner,
        length-frame c version_aead_v1 dek nonce plain aad
            (omega (arith, length-take 12 r'.content)),
      ))

-- If the service keeps its contract for the key id, returns a data key, and leaves 12 bytes in the
-- source, `EnvelopeSealer.Seal` returns a token, and `EnvelopeSealer.Open` of that token with the
-- same additional data returns the plaintext.
pub envelope_open-envelope_seal :
    (c : Aead) (e : EnvelopeSealer) (plain aad dek wrapped : Bytes) (r r' : Reader)
    → Serves e.kms e.key_id
    → IsBytes plain
    → IsBytes r.content
    → e.kms.generate_data_key e.key_id r ≡ (ok (dek, wrapped), r')
    → 12 ≤ length r'.content
    → (token : Bytes) × (envelope_seal c e plain aad r
        ≡ (ok token, record r' { content = drop 12 r'.content }))
      × (envelope_open c e token aad ≡ ok plain)
unfolding envelope_open
envelope_open-envelope_seal c e plain aad dek wrapped r r' serves hp hr generated enough =
    let hk = serves.key_size r r' dek wrapped generated in
    let (fits, hw, hr') = serves.wrapped_fits r r' dek wrapped hr generated in
    let nonce : Bytes = take 12 r'.content in
    let long : length nonce ≡ 12 = omega (arith, length-take 12 r'.content) in
    let inner : Bytes = frame c version_aead_v1 dek nonce plain aad in
    let hn = All-take IsByte 12 r'.content hr' in
    let hi = frame-IsBytes c version_aead_v1 dek nonce plain aad (omega arith) hn hp in
    let good = Base64.RoundTrip.decode-encode Base64.url Base64.RoundTrip.url-IsAlphabet in
    (
      Base64.encode Base64.url (envelope wrapped inner),
      envelope_seal_lem c e plain aad dek wrapped r r' generated hk hp hr' enough,
      rw
          (
            good (envelope wrapped inner) (envelope-IsBytes wrapped inner hw hi),
            split_envelope-envelope wrapped inner fits,
            serves.unwraps r r' dek wrapped hr generated,
          )
          ((open_token_iff c dek aad (token_of c version_aead_v1 dek nonce plain aad) plain).1 (
            hk,
            token_of-IsTokenOf c version_aead_v1 dek nonce plain aad (omega arith) long hn hp,
          )),
    )
