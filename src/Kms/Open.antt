-- ===== src/Kms/Open.antt =====
-- kms.go: `EnvelopeSealer.Open` and `StaticKMS.Decrypt`.
use crypt.Base.{◌+◌, ◌%◌, ◌^◌, [], length, ◌==◌, ltb, not}
use crypt.Base.Outcome.{
  Result, ok, guard, or_fail, ◌>>=◌, ◌>>◌, first, slice, slice_from, invalid_ciphertext,
  ciphertext_too_short, unsupported_version,
}
use crypt.Wire.{Bytes, u32}
use crypt.Wire.Base64
use crypt.Cipher.{Aead}
use crypt.Gcm.Open.{open_token}
use crypt.Kms.Seal.{EnvelopeSealer, StaticKms, lookup_kek, version_envelope_v1}

-- The wrapped key and the inner bytes. The length is compared as a 64-bit number, and the bounds
-- of the slices are computed as 32-bit numbers.
unfoldable pub split_envelope : Bytes → Result (Bytes × Bytes)
split_envelope raw = do
  guard (not (ltb (length raw) 5)) ciphertext_too_short
  v ← first raw
  guard (v == version_envelope_v1) unsupported_version
  field ← slice 1 5 raw
  wrapped_len ← u32 field
  guard (not (ltb (length raw) (5 + wrapped_len))) ciphertext_too_short
  wrapped ← slice 5 ((5 + wrapped_len) % 2 ^ 32) raw
  inner ← slice_from ((5 + wrapped_len) % 2 ^ 32) raw
  ok (wrapped, inner)

-- `EnvelopeSealer.Open`
unfoldable pub envelope_open : Aead → EnvelopeSealer → Bytes → Bytes → Result Bytes
envelope_open gcm e token aad = do
  raw ← or_fail (Base64.decode Base64.url token) invalid_ciphertext
  (wrapped, inner) ← split_envelope raw
  dek ← e.kms.decrypt e.key_id wrapped
  open_token gcm dek (Base64.encode Base64.url inner) aad

-- `StaticKMS.Decrypt`
unfoldable pub static_decrypt : Aead → StaticKms → Bytes → Bytes → Result Bytes
static_decrypt gcm s key_id wrapped = do kek ← lookup_kek s key_id; open_token gcm kek wrapped []
