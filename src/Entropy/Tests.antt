-- ===== src/Entropy/Tests.antt =====
-- The random helpers at a concrete source.
use crypt.Base.{◌+◌, ◌*◌, ◌/◌, ◌≡◌, refl, arith, some, length, take, drop}
use crypt.Base.Int.{pos}
use crypt.Base.Outcome.{ok}
use crypt.Wire.{Bytes}
use crypt.Wire.Base64
use crypt.Wire.Hex
use crypt.Entropy.{random_token, random_hex}
use crypt.Entropy.Laws.{random_texts}
use crypt.Samples.{source}

sixteen_nines_printed :
    ((token : Bytes) × (random_token (pos 16) source
        ≡ (ok token, record source { content = drop 16 source.content }))
      × (length token ≡ (16 * 4 + 2) / 3)
      × (Base64.decode Base64.url token ≡ some (take 16 source.content)))
    × ((digits : Bytes) × (random_hex (pos 16) source
          ≡ (ok digits, record source { content = drop 16 source.content }))
        × (length digits ≡ 16 * 2)
        × (Hex.decode digits ≡ some (take 16 source.content)))
sixteen_nines_printed = random_texts (pos 16) source (omega arith) refl (omega arith)
