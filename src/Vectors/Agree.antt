-- ===== src/Vectors/Agree.antt =====
-- The functions of the package produce and accept every vector.
use crypt.Base.{true, ◌≡◌, refl, ap, List, [], ◌∷◌, All, some, length, arith}
use crypt.Base.Outcome.{Result, ok}
use crypt.Wire.{Bytes}
use crypt.Wire.Hex
use crypt.Entropy.{Reader}
use crypt.Cipher.{Aead, new_gcm_32, seal_with_12}
use crypt.Format.{version_aead_v1}
use crypt.Format.Sealed.{token_of, token_of-IsTokenOf, seal_frame_lem}
use crypt.Gcm.Seal.{seal_with_nonce, pick_nonce}
use crypt.Gcm.Open.{open_token}
use crypt.Gcm.Accepts.{open_token_iff}
use crypt.Sign.{Hmac, sign, verify, verify_iff}
use crypt.Vectors.Hmac.{HmacSpec, HmacVector, hmac_vector}
use crypt.Vectors.{for_each}
use crypt.Vectors.Aead.{AeadSpec, AeadVector, aad_of, aead_vector}

module _ {ℓ κ} {A : Type ℓ} {B : Type κ} (vector_of : A → Result B) (P : B → Type 0) where
  -- What the body of a loop gives for every row of the table, the loop gives.
  pub for_each-All :
      (specs : List A)
      → All (λ s. (v : B) × (vector_of s ≡ ok v) × P v) specs
      → (vs : List B) × (for_each vector_of specs ≡ ok vs) × (length vs ≡ length specs) × All P vs
  unfolding for_each
  for_each-All [] _ = ([], refl, refl, tt)
  for_each-All (s ∷ specs) ((v, made, p), rest) =
      let (vs, all, long, ps) = for_each-All specs rest in
      (v ∷ vs, rw (for_each, made, all) refl, omega arith, (p, ps))

-- A row whose texts are hex, with a key of 32 bytes and a nonce of 12.
abbrev pub IsAeadRow : AeadSpec → Bytes → Bytes → Bytes → Bytes → Type 0
IsAeadRow s key nonce aad plain =
    (Hex.decode s.key_hex ≡ some key)
    × (Hex.decode s.nonce_hex ≡ some nonce)
    × (Hex.decode s.aad_hex ≡ some aad)
    × (Hex.decode s.plaintext_hex ≡ some plain)
    × (length key ≡ 32)
    × (length nonce ≡ 12)

-- What the package does with a vector: `sealWithNonce` returns the token and `Open` opens it.
abbrev pub AeadAgrees : Aead → AeadVector → Type 0
AeadAgrees gcm v =
    (key : Bytes) × (nonce : Bytes) × (aad : Bytes) × (plain : Bytes) × IsAeadRow v.spec key nonce
      aad plain
    × ((r : Reader) → seal_with_nonce gcm key plain aad (some nonce) r ≡ (ok v.expected_b64url, r))
    × (open_token gcm key v.expected_b64url aad ≡ ok plain)

aad_of_lem : (text aad : Bytes) → Hex.decode text ≡ some aad → aad_of text ≡ ok aad
unfolding Hex.decode
aad_of_lem [] aad h = let e : [] ≡ aad = cc in ap ok e
aad_of_lem (c ∷ text) aad h = rw h refl

-- The generator makes of every such row a vector on which the package agrees.
pub aead_vector-agrees :
    (gcm : Aead) (s : AeadSpec) (key nonce aad plain : Bytes)
    → IsAeadRow s key nonce aad plain
    → (v : AeadVector) × (aead_vector gcm s ≡ ok v) × AeadAgrees gcm v
unfolding aead_vector seal_with_nonce pick_nonce
aead_vector-agrees gcm s key nonce aad plain (hk, hn, ha, hp, long_key, long_nonce) =
    let pk = Hex.decode_prefix-decode s.key_hex key hk in
    let pn = Hex.decode_prefix-decode s.nonce_hex nonce hn in
    let v : AeadVector = record {
      spec = s;
      expected_b64url = token_of gcm version_aead_v1 key nonce plain aad;
    } in
    (
      v,
      rw
          (
            hp,
            aad_of_lem s.aad_hex aad ha,
            pk,
            pn,
            new_gcm_32 key long_key,
            seal_with_12 gcm key nonce plain aad long_nonce,
          )
          refl,
      (
        key,
        nonce,
        aad,
        plain,
        (hk, hn, ha, hp, long_key, long_nonce),
        λ r.
            rw
              (
                long_key,
                new_gcm_32 key long_key,
                long_nonce,
                seal_frame_lem gcm version_aead_v1 key nonce plain aad long_nonce,
              )
              refl,
        (open_token_iff gcm key aad v.expected_b64url plain).1 (
          long_key,
          token_of-IsTokenOf gcm version_aead_v1 key nonce plain aad (omega arith) long_nonce
              (Hex.decode-bytes s.nonce_hex nonce hn) (Hex.decode-bytes s.plaintext_hex plain hp),
        ),
      ),
    )

-- `Sign` makes the tag, and `Verify` accepts it.
abbrev pub HmacAgrees : Hmac → HmacVector → Type 0
HmacAgrees h v =
    (key : Bytes) × (text : Bytes) × (Hex.decode v.spec.key_hex ≡ some key)
    × (Hex.decode v.spec.data_hex ≡ some text)
    × (Hex.decode v.expected_hex ≡ some (sign h key text))
    × (verify h key text (sign h key text) ≡ true)

pub hmac_vector-agrees :
    (h : Hmac) (s : HmacSpec) (key text : Bytes)
    → Hex.decode s.key_hex ≡ some key
    → Hex.decode s.data_hex ≡ some text
    → (v : HmacVector) × (hmac_vector h s ≡ ok v) × HmacAgrees h v
unfolding hmac_vector sign
hmac_vector-agrees h s key text hk ht =
    let v : HmacVector = record { spec = s; expected_hex = Hex.encode (sign h key text) } in
    (
      v,
      rw (ht, Hex.decode_prefix-decode s.key_hex key hk) refl,
      (
        key,
        text,
        hk,
        ht,
        Hex.decode-encode (sign h key text) (h.tag-IsBytes key text),
        (verify_iff h key text (sign h key text)).1 refl,
      ),
    )
