-- ===== src/Spelling/Tests.antt =====
-- The theorem on the spelling of tokens at a token with a line end and at one with another last
-- character.
use crypt.Base.{◌≡◌, refl, [], ◌∷◌, inl}
use crypt.Wire.Base64
use crypt.Wire.Base64.Spelling.{Respelled, last_changed}
use crypt.Cipher.Sample.{sample}
use crypt.Gcm.Open.{open_token}
use crypt.ChaCha.Open.{open_chacha20}
use crypt.KeyRing.{KeyRing}
use crypt.KeyRing.Open.{ring_open}
use crypt.Asymmetric.Open.{open_asymmetric}
use crypt.Asymmetric.Sample.{sample_curve}
use crypt.Kms.Seal.{EnvelopeSealer}
use crypt.Kms.Open.{envelope_open}
use crypt.Kms.Static.{static_kms}
use crypt.Spelling.{respelling_ignored}
use crypt.Samples.{key_32, context}

abbrev ring : KeyRing
ring = record { active = context; keys = (context, key_32) ∷ []; raw_keys = (context, key_32) ∷ [] }

abbrev sealer : EnvelopeSealer
sealer = record {
  kms = static_kms sample (record { keks = (context, key_32) ∷ [] });
  key_id = context;
}

-- The value of `A` is 0 and that of `P` is 15: the same upper two of six bits.
a_and_p : Respelled (b'A' ∷ b'A' ∷ []) (b'A' ∷ b'P' ∷ [])
unfolding Base64.values Base64.value_of Base64.push_group
a_and_p = last_changed (b'A' ∷ []) (0 ∷ []) b'A' b'P' 0 15 refl refl refl (inl (refl, refl))

respelling_ignored_example :
    (open_token sample key_32 (b'A' ∷ b'P' ∷ []) context
      ≡ open_token sample key_32 (b'A' ∷ b'A' ∷ []) context)
    × (open_chacha20 sample key_32 (b'A' ∷ b'P' ∷ []) context
        ≡ open_chacha20 sample key_32 (b'A' ∷ b'A' ∷ []) context)
    × (ring_open sample ring [] (b'A' ∷ b'P' ∷ []) context
        ≡ ring_open sample ring [] (b'A' ∷ b'A' ∷ []) context)
    × (open_asymmetric sample_curve sample key_32 (b'A' ∷ b'P' ∷ [])
        ≡ open_asymmetric sample_curve sample key_32 (b'A' ∷ b'A' ∷ []))
    × (envelope_open sample sealer (b'A' ∷ b'P' ∷ []) context
        ≡ envelope_open sample sealer (b'A' ∷ b'A' ∷ []) context)
respelling_ignored_example =
    respelling_ignored sample sample_curve ring [] sealer key_32 context (b'A' ∷ b'A' ∷ [])
      (b'A' ∷ b'P' ∷ []) a_and_p
