-- ===== src/Format.antt =====
-- format.go: the constants of the wire format, and the layout
-- `[version:1][nonce:12][ciphertext and tag]` that aead.go, aead_chacha20.go and keyring.go write
-- and read in the same words.
pub mod Layout
pub mod Accepts
pub mod Tokens
pub mod Sealed
use crypt.Base.{ℕ, ◌+◌, ◌<◌, ◌≤◌, ◌∷◌, ◌++◌, length, ltb, ◌==◌, not}
use crypt.Base.Outcome.{
  Result, ok, guard, or_fail, ◌>>=◌, ◌>>◌, first, slice, slice_from, ciphertext_too_short,
  unsupported_version, tampered,
}
use crypt.Wire.{Bytes}
use crypt.Wire.Base64
use crypt.Cipher.{Aead, seal_with, open_with}

abbrev pub version_aead_v1 : ℕ
version_aead_v1 = 0x01

abbrev pub version_aead_v2 : ℕ
version_aead_v2 = 0x02

abbrev pub version_aead_v3 : ℕ
version_aead_v3 = 0x03

abbrev pub aead_key_size : ℕ
aead_key_size = 32

abbrev pub aead_nonce_size : ℕ
aead_nonce_size = 12

abbrev pub aead_tag_size : ℕ
aead_tag_size = 16

abbrev pub aead_header_size : ℕ
aead_header_size = 1 + aead_nonce_size

abbrev pub aead_min_size : ℕ
aead_min_size = aead_header_size + aead_tag_size

abbrev pub key_ring_max_kid_len : ℕ
key_ring_max_kid_len = 64

-- The end of a sealing function: `out` is the version, the nonce, and what the cipher appends.
unfoldable pub seal_frame : Aead → ℕ → Bytes → Bytes → Bytes → Bytes → Result Bytes
seal_frame c version key nonce plain aad = do
  body ← seal_with c key nonce plain aad
  ok (Base64.encode Base64.url (version ∷ (nonce ++ body)))

-- The tests of an opening function on the decoded bytes: the length first, then the version.
unfoldable pub check_frame : ℕ → Bytes → Result (Unit {0})
check_frame version raw = do
  guard (not (ltb (length raw) aead_min_size)) ciphertext_too_short
  v ← first raw
  guard (v == version) unsupported_version

-- The end of an opening function: the nonce and the body are cut out and handed to the cipher.
unfoldable pub open_frame : Aead → Bytes → Bytes → Bytes → Result Bytes
open_frame c key raw aad = do
  nonce ← slice 1 aead_header_size raw
  body ← slice_from aead_header_size raw
  plain ← open_with c key nonce body aad
  or_fail plain tampered
