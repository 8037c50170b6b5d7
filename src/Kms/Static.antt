-- ===== src/Kms/Static.antt =====
-- `StaticKMS` keeps the contract that `EnvelopeSealer` relies on.
use crypt.Base.{
  ◌+◌, ◌^◌, ◌<◌, ◌≡◌, refl, ap, [], length, arith, take, length-take, All-take, All-drop,
}
use crypt.Base.Outcome.{Result, ok, err, panic}
use crypt.Wire.{Bytes, IsByte, IsBytes}
use crypt.Wire.Base64
use crypt.Entropy.{Reader, draw, random_bytes, and_then, Drawing}
use crypt.Entropy.Laws.{draw_ok, draw-IsBytes}
use crypt.Cipher.{Aead}
use crypt.Format.{version_aead_v1}
use crypt.Format.Sealed.{token_of, length-token_of, token_of-IsTokenOf}
use crypt.Gcm.Seal.{seal}
use crypt.Gcm.Sealed.{seal_returns}
use crypt.Gcm.Accepts.{open_token_iff}
use crypt.Kms.{Kms, Serves}
use crypt.Kms.Seal.{StaticKms, lookup_kek, static_generate, static_encrypt}
use crypt.Kms.Open.{static_decrypt}

-- The service as an implementation of the interface.
unfoldable pub static_kms : Aead → StaticKms → Kms
static_kms gcm s = record {
  generate_data_key = static_generate gcm s;
  decrypt = static_decrypt gcm s;
  encrypt = static_encrypt gcm s;
}

and_then-ok {ℓ κ} :
    {A : Type ℓ} {B : Type κ} (f : A → Drawing B) (m : Result A × Reader) {b : B} {r : Reader}
    → and_then f m ≡ (ok b, r)
    → (a : A) × (r' : Reader) × (m ≡ (ok a, r')) × (f a r' ≡ (ok b, r))
and_then-ok f (ok a, r') h = (a, r', refl, h)
and_then-ok f (err e, r') h = cc
and_then-ok f (panic, r') h = cc

module _ (c : Aead) (s : StaticKms) (key_id : Bytes) (r r' : Reader) (dek wrapped : Bytes) where
  -- What a successful `GenerateDataKey` went through.
  generated :
      static_generate c s key_id r ≡ (ok (dek, wrapped), r')
      → (kek : Bytes) × (between : Reader) × (lookup_kek s key_id ≡ ok kek)
        × (draw 32 r ≡ (ok dek, between))
        × (seal c kek dek [] between ≡ (ok wrapped, r'))
  unfolding static_generate random_bytes
  generated h =
      let (kek, r1, found, h1) = and_then-ok _ (lookup_kek s key_id, r) h in
      let (dek', r2, drawn, h2) = and_then-ok _ (draw 32 r1) h1 in
      let (wrapped', r3, sealed, h3) = and_then-ok _ (seal c kek dek' [] r2) h2 in
      (kek, r2, cc, cc, cc)

  module _ (bytes : IsBytes r.content)
      (h : static_generate c s key_id r ≡ (ok (dek, wrapped), r')) where
    static_unwraps : static_decrypt c s key_id wrapped ≡ ok dek
    unfolding static_decrypt
    static_unwraps =
        let (kek, between, found, drawn, sealed) = generated h in
        let (dek_bytes, rest_bytes) = draw-IsBytes 32 r between dek bytes drawn in
        let (hk, enough, shape, _) = seal_returns c kek dek [] between r' wrapped sealed in
        let nonce : Bytes = take 12 between.content in
        rw (found, shape)
          ((open_token_iff c kek [] (token_of c version_aead_v1 kek nonce dek []) dek).1 (
            hk,
            token_of-IsTokenOf c version_aead_v1 kek nonce dek [] (omega arith)
                (omega (arith, length-take 12 between.content))
                (All-take IsByte 12 between.content rest_bytes) dek_bytes,
          ))

    static_wrapped_fits : (length wrapped + 5 < 2 ^ 32) × IsBytes wrapped × IsBytes r'.content
    static_wrapped_fits =
        let (kek, between, found, drawn, sealed) = generated h in
        let (size, _, _, _) = draw_ok 32 r between dek drawn in
        let (_, rest_bytes) = draw-IsBytes 32 r between dek bytes drawn in
        let (hk, enough, shape, left) = seal_returns c kek dek [] between r' wrapped sealed in
        let nonce : Bytes = take 12 between.content in
        let long : length nonce ≡ 12 = omega (arith, length-take 12 between.content) in
        (
          omega (
            arith,
            ap (λ (t : Bytes). length t) shape,
            length-token_of c version_aead_v1 kek nonce dek [] long,
          ),
          rw shape (Base64.RoundTrip.encode-url-bytes _),
          rw left (All-drop IsByte 12 between.content rest_bytes),
        )

  static_key_size : static_generate c s key_id r ≡ (ok (dek, wrapped), r') → length dek ≡ 32
  static_key_size h =
      let (kek, between, found, drawn, sealed) = generated h in (draw_ok 32 r between dek drawn).0

-- `StaticKMS` keeps the contract for every key id and whatever keys were added: a data key unwraps
-- to itself, has 32 bytes, and its wrapped form is short enough.
pub static_kms-Serves : (c : Aead) (s : StaticKms) (key_id : Bytes) → Serves (static_kms c s) key_id
unfolding static_kms
static_kms-Serves c s key_id = record {
  unwraps = λ r r' dek wrapped bytes h. static_unwraps c s key_id r r' dek wrapped bytes h;
  key_size = λ r r' dek wrapped h. static_key_size c s key_id r r' dek wrapped h;
  wrapped_fits =
      λ r r' dek wrapped bytes h. static_wrapped_fits c s key_id r r' dek wrapped bytes h;
}

-- `Decrypt` after `Encrypt` of `StaticKMS` with the same key id returns the plaintext.
pub static_decrypt-static_encrypt :
    (c : Aead) (s : StaticKms) (key_id plain wrapped : Bytes) (r r' : Reader)
    → IsBytes plain
    → IsBytes r.content
    → static_encrypt c s key_id plain r ≡ (ok wrapped, r')
    → static_decrypt c s key_id wrapped ≡ ok plain
unfolding static_encrypt static_decrypt
static_decrypt-static_encrypt c s key_id plain wrapped r r' hp hr h =
    let (kek, r1, found, sealed) = and_then-ok _ (lookup_kek s key_id, r) h in
    let sealed' : seal c kek plain [] r ≡ (ok wrapped, r') = cc in
    let (hk, enough, shape, _) = seal_returns c kek plain [] r r' wrapped sealed' in
    let nonce : Bytes = take 12 r.content in
    let found' : lookup_kek s key_id ≡ ok kek = cc in
    rw (found', shape)
      ((open_token_iff c kek [] (token_of c version_aead_v1 kek nonce plain []) plain).1 (
        hk,
        token_of-IsTokenOf c version_aead_v1 kek nonce plain [] (omega arith)
            (omega (arith, length-take 12 r.content)) (All-take IsByte 12 r.content hr) hp,
      ))
