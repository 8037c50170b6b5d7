-- ===== src/KeyRing/Named.antt =====
-- What a ring makes of a token of `KeyRing.Seal` depends on the key under the kid in the token.
use crypt.Base.{
  ◌≤◌, ◌≡◌, ◌∙◌, refl, List, ◌++◌, length, none, some, take, drop, arith, length-append,
  length-take,
}
use crypt.Base.Outcome.{ok, err, tampered}
use crypt.Wire.{Bytes, IsBytes}
use crypt.Wire.Base64
use crypt.Wire.Base64.Shape.{length-encode}
use crypt.Entropy.{Reader}
use crypt.Cipher.{Aead}
use crypt.Format.{version_aead_v3}
use crypt.Assoc.{lookup}
use crypt.KeyRing.{KeyRing}
use crypt.KeyRing.Seal.{ring_seal}
use crypt.KeyRing.Open.{ring_open}
use crypt.KeyRing.Version3.{kid_frame, open_v3-parts}
use crypt.KeyRing.Dispatch.{decoded, open_version-v3, ring_open-by_kid}
use crypt.KeyRing.Rotation.{kid_token, ring_seal_lem, kid_token-decode}

-- A token whose kid the ring does not have is refused by `ErrTampered`.
ring_open-unknown :
    (c : Aead) (r : KeyRing) (order : List Bytes) (kid key nonce plain aad token : Bytes)
    → Base64.decode Base64.url token ≡ some (kid_frame c kid key nonce plain aad)
    → 1 ≤ length kid
    → length kid ≤ 64
    → length nonce ≡ 12
    → lookup kid r.keys ≡ none
    → ring_open c r order token aad ≡ err tampered
ring_open-unknown c r order kid key nonce plain aad token good lo hi hn missing =
    let body : Bytes = c.seal key nonce plain aad in
    let size = c.length-seal key nonce plain aad in
    decoded c r aad order token good
      (omega (arith, length-append kid (nonce ++ body), length-append nonce body, size))
    ∙ open_version-v3 c r aad order _
    ∙ open_v3-parts c r aad version_aead_v3 (length kid) kid nonce body refl lo hi hn
        (omega (arith, size))
    ∙ rw missing refl

-- The token is of use to exactly those rings that have the key under the kid.
abbrev pub NamesKey : Aead → Bytes → Bytes → Bytes → Bytes → Bytes → Type 0
NamesKey c kid key plain aad token =
    ((r : KeyRing) (order : List Bytes)
      → lookup kid r.keys ≡ some key
      → ring_open c r order token aad ≡ ok plain)
    × ((r : KeyRing) (order : List Bytes)
        → lookup kid r.keys ≡ none
        → ring_open c r order token aad ≡ err tampered)

module _ (c : Aead) (r : KeyRing) (plain aad : Bytes) (source : Reader) where
  pub ring_seal-NamesKey :
      (key : Bytes)
      → lookup r.active r.keys ≡ some key
      → 1 ≤ length r.active
      → length r.active ≤ 64
      → IsBytes r.active
      → IsBytes plain
      → IsBytes source.content
      → 12 ≤ length source.content
      → (token : Bytes) × (ring_seal c r plain aad source
          ≡ (ok token, record source { content = drop 12 source.content }))
        × (40 ≤ length token)
        × NamesKey c r.active key plain aad token
  ring_seal-NamesKey key bound lo hi ha hp hs enough =
      let nonce : Bytes = take 12 source.content in
      let body : Bytes = c.seal key nonce plain aad in
      let hn : length nonce ≡ 12 = omega (arith, length-take 12 source.content) in
      let good = kid_token-decode c r plain aad source key hi ha hp hs in
      (
        kid_token c r plain aad source key,
        ring_seal_lem c r plain aad source key bound hi enough,
        omega (
          arith,
          length-encode Base64.url (kid_frame c r.active key nonce plain aad),
          length-append r.active (nonce ++ body),
          length-append nonce body,
          c.length-seal key nonce plain aad,
        ),
        (
          λ (q : KeyRing) order here.
              ring_open-by_kid c q aad order _ _ plain good
                (r.active, key, nonce, here, lo, hi, hn, refl),
          λ (q : KeyRing) order missing.
              ring_open-unknown c q order r.active key nonce plain aad _ good lo hi hn missing,
        ),
      )
