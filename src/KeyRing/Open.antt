-- ===== src/KeyRing/Open.antt =====
-- keyring.go: `KeyRing.Open`, and the fallback for tokens of version 1.
use crypt.Base.{ℕ, length, ◌+◌, ltb, ◌==◌, not, ◌||◌, List, [], ◌∷◌, Option, same, if◌then◌else◌}
use crypt.Base.Outcome.{
  Result, ok, err, panic, guard, or_fail, ◌>>=◌, ◌>>◌, first, slice, slice_from, invalid_ciphertext,
  ciphertext_too_short, unsupported_version, tampered,
}
use crypt.Wire.{Bytes}
use crypt.Wire.Base64
use crypt.Cipher.{Aead, open_with}
use crypt.Format.{
  aead_min_size, aead_nonce_size, aead_tag_size, version_aead_v1, version_aead_v3,
  key_ring_max_kid_len, check_frame, open_frame,
}
use crypt.Assoc.{lookup}
use crypt.KeyRing.{KeyRing}
use crypt.KeyRing.Seal.{found}

-- `openV1WithAEAD`. Its caller drops the error, so a failure of the cipher is not told from
-- `ErrTampered` here.
unfoldable pub open_v1_with_aead : Aead → Option Bytes → Bytes → Bytes → Result Bytes
open_v1_with_aead c entry raw aad = do
  check_frame version_aead_v1 raw
  gcm ← found entry
  open_frame c gcm raw aad

-- The kids other than the active one, in the order in which `range` yields them.
unfoldable pub others : Bytes → List Bytes → List Bytes
others active [] = []
others active (kid ∷ kids) =
    let rest = others active kids in if same kid active then rest else kid ∷ rest

-- `kidsActiveFirst`. Go's order of iteration over a map is not determined: it is an argument.
unfoldable pub kids_active_first : KeyRing → List Bytes → List Bytes
kids_active_first r order = r.active ∷ others r.active order

-- The loop over the kids: the first key that opens the token.
unfoldable pub try_kids : Aead → KeyRing → Bytes → Bytes → List Bytes → Result Bytes
try_kids c r raw aad [] = err tampered
try_kids c r raw aad (kid ∷ kids) =
    let rest = try_kids c r raw aad kids in
    elim (open_v1_with_aead c (lookup kid r.keys) raw aad) [
      | ok plain ↦ ok plain
      | err _ ↦ rest
      | panic ↦ panic
    ]

-- The case of version 3: the length of the kid, the kid, its key, the nonce, and the rest.
unfoldable pub open_v3 : Aead → KeyRing → Bytes → Bytes → Result Bytes
open_v3 c r raw aad = do
  guard (not (ltb (length raw) 2)) ciphertext_too_short
  tail ← slice_from 1 raw
  kid_len ← first tail
  guard (not (ltb kid_len 1 || ltb key_ring_max_kid_len kid_len)) invalid_ciphertext
  guard (not (ltb (length raw) (2 + kid_len + aead_nonce_size + aead_tag_size)))
      ciphertext_too_short
  kid ← slice 2 (2 + kid_len) raw
  gcm ← or_fail (lookup kid r.keys) tampered
  nonce ← slice (2 + kid_len) (2 + kid_len + aead_nonce_size) raw
  body ← slice_from (2 + kid_len + aead_nonce_size) raw
  plain ← open_with c gcm nonce body aad
  or_fail plain tampered

-- The `switch` on the version.
unfoldable pub open_version : Aead → KeyRing → List Bytes → ℕ → Bytes → Bytes → Result Bytes
open_version c r order version raw aad =
    if version == version_aead_v1
    then try_kids c r raw aad (kids_active_first r order)
    else if version == version_aead_v3
    then open_v3 c r raw aad
    else err unsupported_version

-- `KeyRing.Open`
unfoldable pub ring_open : Aead → KeyRing → List Bytes → Bytes → Bytes → Result Bytes
ring_open c r order token aad = do
  raw ← or_fail (Base64.decode Base64.url token) invalid_ciphertext
  guard (not (ltb (length raw) aead_min_size)) ciphertext_too_short
  version ← first raw
  open_version c r order version raw aad
