-- ===== src/Gcm/RoundTrip.antt =====
-- `Open` after `Seal`.
use crypt.Base.{◌+◌, ◌*◌, ◌/◌, ◌≤◌, ◌≡◌, ◌∙◌, length, take, drop, arith, All-take, length-take}
use crypt.Base.Outcome.{ok}
use crypt.Wire.{Bytes, IsByte, IsBytes}
use crypt.Entropy.{Reader}
use crypt.Cipher.{Aead}
use crypt.Format.{version_aead_v1}
use crypt.Format.Sealed.{token_of, length-token_of, token_of-IsTokenOf}
use crypt.Gcm.Seal.{seal}
use crypt.Gcm.Open.{open_token}
use crypt.Gcm.Sealed.{seal_lem}
use mathlib.Core.Path.{subst}
use crypt.Gcm.Sealer.{Sealer, new_sealer, sealer_seal, sealer_open}
use crypt.Gcm.Accepts.{sealer_methods, open_token_iff}

-- With a key of 32 bytes and 12 bytes in the source, `Seal` returns a token of
-- ceil(4 (n + 29) / 3) characters for a plaintext of n bytes, uses 12 bytes of the source up, and
-- `Open` of that token with the same key and additional data returns the plaintext.
pub open_token-seal :
    (c : Aead) (key plain aad : Bytes) (r : Reader)
    → length key ≡ 32
    → IsBytes plain
    → IsBytes r.content
    → 12 ≤ length r.content
    → (token : Bytes) × (seal c key plain aad r
        ≡ (ok token, record r { content = drop 12 r.content }))
      × (length token ≡ ((length plain + 29) * 4 + 2) / 3)
      × (open_token c key token aad ≡ ok plain)
open_token-seal c key plain aad r hk hp hr enough =
    let nonce : Bytes = take 12 r.content in
    let long : length nonce ≡ 12 = omega (arith, length-take 12 r.content) in
    let token : Bytes = token_of c version_aead_v1 key nonce plain aad in
    (
      token,
      seal_lem c key plain aad r hk enough,
      length-token_of c version_aead_v1 key nonce plain aad long,
      (open_token_iff c key aad token plain).1 (
        hk,
        token_of-IsTokenOf c version_aead_v1 key nonce plain aad (omega arith) long
            (All-take IsByte 12 r.content hr) hp,
      ),
    )

-- The same for a `Sealer` that `NewSealer` made.
pub sealer_open-sealer_seal :
    (c : Aead) (key : Bytes) (s : Sealer) (plain aad : Bytes) (r : Reader)
    → new_sealer key ≡ ok s
    → length key ≡ 32
    → IsBytes plain
    → IsBytes r.content
    → 12 ≤ length r.content
    → (token : Bytes) × (sealer_seal c s plain aad r
        ≡ (ok token, record r { content = drop 12 r.content }))
      × (sealer_open c s token aad ≡ ok plain)
sealer_open-sealer_seal c key s plain aad r made hk hp hr enough =
    let (s', made', seals, opens) = sealer_methods c key hk in
    let equal : s' ≡ s = cc in
    let (token, sealed, _, opened) = open_token-seal c key plain aad r hk hp hr enough in
    subst
      (λ t.
        (token : Bytes) × (sealer_seal c t plain aad r
          ≡ (ok token, record r { content = drop 12 r.content }))
        × (sealer_open c t token aad ≡ ok plain))
      equal (token, seals plain aad r ∙ sealed, opens token aad ∙ opened)
