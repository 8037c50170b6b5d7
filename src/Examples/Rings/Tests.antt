-- ===== src/Examples/Rings/Tests.antt =====
-- The theorem on examples/keyring_rotation with the sample cipher.
use crypt.Base.{◌≡◌, [], ◌∷◌, drop, take, arith}
use crypt.Base.Outcome.{ok, tampered}
use crypt.Wire.{Bytes}
use crypt.Wire.Text.{codes}
use crypt.Cipher.Sample.{sample}
use crypt.KeyRing.Seal.{ring_seal}
use crypt.Examples.Program.{text, failure}
use crypt.Examples.Rings.{kid_2025, kid_2026, rotate_keys}
use crypt.Examples.Rings.Run.{ring_2025, ring_rotated, rotate_keys-prints}
use crypt.Samples.{source}

rotate_keys-prints_example :
    (old new : Bytes) × (ring_seal sample ring_2025 (codes "encrypted in 2025") [] source
      ≡ (ok old, record source { content = drop 12 source.content }))
    × (ring_seal sample ring_rotated
          (codes "encrypted in 2026")
          []
          (record source { content = drop 12 source.content })
        ≡ (ok new, record source { content = drop 12 (drop 12 source.content) }))
    × (rotate_keys sample
          (kid_2026 ∷ kid_2025 ∷ [])
          (kid_2025 ∷ kid_2026 ∷ [])
          (kid_2026 ∷ [])
          (record { random = source; printed = [] })
        ≡ (
          ok tt,
          record {
            random = record source { content = drop 12 (drop 12 source.content) };
            printed =
                text kid_2025
                ∷ text (take 32 old)
                ∷ text kid_2026
                ∷ text (take 32 new)
                ∷ text (codes "encrypted in 2025")
                ∷ text (codes "encrypted in 2026")
                ∷ text kid_2026
                ∷ failure tampered
                ∷ [];
          },
        ))
rotate_keys-prints_example =
    rotate_keys-prints sample (kid_2026 ∷ kid_2025 ∷ []) (kid_2025 ∷ kid_2026 ∷ []) (kid_2026 ∷ [])
      source (omega arith) (omega arith)
