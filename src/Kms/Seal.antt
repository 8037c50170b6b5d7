-- ===== src/Kms/Seal.antt =====
-- kms.go: `EnvelopeSealer.Seal`, and the methods of `StaticKMS` that draw random bytes.
use crypt.Base.{ℕ, ◌%◌, ◌^◌, [], ◌∷◌, ◌++◌, ◌≡◌, refl, ap, replicate, length, ◌==◌, if◌then◌else◌}
use crypt.Base.Int.{pos}
use crypt.Base.Outcome.{Result, ok, or_fail, err, invalid_key, unknown_key_id, bad_inner}
use crypt.Wire.{Bytes, put_u32}
use crypt.Wire.Base64
use crypt.Entropy.{Drawing, lift, ◌>>=◌, random_bytes}
use crypt.Cipher.{Aead}
use crypt.Format.{aead_key_size}
use crypt.Gcm.Seal.{seal}
use crypt.Assoc.{Map, lookup, insert}
use crypt.Kms.{Kms}

-- `EnvelopeSealer`, and `NewEnvelopeSealer`
pub record EnvelopeSealer : Type 0 where
  pub kms : Kms
  pub key_id : Bytes

unfoldable pub new_envelope_sealer : Kms → Bytes → EnvelopeSealer
new_envelope_sealer kms key_id = record { kms = kms; key_id = key_id }

abbrev pub version_envelope_v1 : ℕ
version_envelope_v1 = 0x06

-- The bytes behind a token: the version, the length of the wrapped key, the wrapped key, and the
-- bytes of the inner token.
unfoldable pub envelope : Bytes → Bytes → Bytes
envelope wrapped inner =
    version_envelope_v1 ∷ (put_u32 (length wrapped % 2 ^ 32) ++ (wrapped ++ inner))

-- `zeroBytes`, which both methods of `EnvelopeSealer` defer for the data key. The buffer is theirs
-- alone, so that no result shows it.
unfoldable pub zero_bytes : Bytes → Bytes
zero_bytes [] = []
zero_bytes (b ∷ bs) = 0 ∷ zero_bytes bs

zero_bytes_lem : (b : Bytes) → zero_bytes b ≡ replicate (length b) 0
unfolding zero_bytes
zero_bytes_lem [] = refl
zero_bytes_lem (b ∷ bs) = ap (λ t. 0 ∷ t) (zero_bytes_lem bs)

-- `EnvelopeSealer.Seal`. The data key is overwritten afterwards.
unfoldable pub envelope_seal : Aead → EnvelopeSealer → Bytes → Bytes → Drawing Bytes
envelope_seal gcm e plain aad = do
  (dek, wrapped) ← e.kms.generate_data_key e.key_id
  inner ← seal gcm dek plain aad
  inner_raw ← lift (or_fail (Base64.decode Base64.url inner) bad_inner)
  lift (ok (Base64.encode Base64.url (envelope wrapped inner_raw)))

-- `StaticKMS`: the keys that wrap, by their ids.
pub record StaticKms : Type 0 where
  pub keks : Map

-- `NewStaticKMS`
abbrev pub new_static_kms : StaticKms
new_static_kms = record { keks = [] }

-- `StaticKMS.AddKey`; a key with the id is replaced.
unfoldable pub add_key : StaticKms → Bytes → Bytes → StaticKms × Result (Unit {0})
add_key s key_id key =
    if length key == aead_key_size
    then (record { keks = insert key_id key s.keks }, ok tt)
    else (s, err invalid_key)

-- `StaticKMS.lookup`
unfoldable pub lookup_kek : StaticKms → Bytes → Result Bytes
lookup_kek s key_id = or_fail (lookup key_id s.keks) unknown_key_id

-- `StaticKMS.GenerateDataKey`
unfoldable pub static_generate : Aead → StaticKms → Bytes → Drawing (Bytes × Bytes)
static_generate gcm s key_id = do
  kek ← lift (lookup_kek s key_id)
  dek ← random_bytes (pos aead_key_size)
  wrapped ← seal gcm kek dek []
  lift (ok (dek, wrapped))

-- `StaticKMS.Encrypt`
unfoldable pub static_encrypt : Aead → StaticKms → Bytes → Bytes → Drawing Bytes
static_encrypt gcm s key_id plain = do kek ← lift (lookup_kek s key_id); seal gcm kek plain []
