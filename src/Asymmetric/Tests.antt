-- ===== src/Asymmetric/Tests.antt =====
-- The theorem on asymmetric.go at a concrete input, with the sample exchange and cipher.
use crypt.Base.{◌↔◌, ◌≢◌, ◌≡◌, refl, drop, arith, replicate}
use crypt.Base.Outcome.{ok, panic}
use crypt.Wire.{Bytes}
use crypt.Cipher.Sample.{sample}
use crypt.Asymmetric.Seal.{seal_asymmetric}
use crypt.Asymmetric.Open.{open_asymmetric}
use crypt.Asymmetric.Sample.{sample_curve}
use crypt.Asymmetric.Accepts.{IsSealedFor, open_asymmetric_iff}
use crypt.Asymmetric.RoundTrip.{open_asymmetric-seal_asymmetric}
use crypt.Samples.{key_32, hello, source}

-- 7 + 9, 9 + 9 and 9 + 16 in each place.
abbrev recipient : Bytes
recipient = replicate 32 16

open_asymmetric-seal_asymmetric_example :
    (token : Bytes) × (seal_asymmetric sample_curve sample recipient hello source
      ≡ (ok token, record source { content = drop 12 (drop 32 source.content) }))
    × (open_asymmetric sample_curve sample key_32 token ≡ ok hello)
unfolding sample_curve
open_asymmetric-seal_asymmetric_example =
    open_asymmetric-seal_asymmetric sample_curve sample key_32 recipient (replicate 32 18)
      (replicate 32 25) hello source refl refl refl refl (omega arith) (omega arith) (omega arith)

-- A token of another version.
open_asymmetric_iff_example :
    (open_asymmetric sample_curve sample key_32 (replicate 84 b'A') ≢ panic)
    × ((open_asymmetric sample_curve sample key_32 (replicate 84 b'A') ≡ ok hello)
        ↔ IsSealedFor sample_curve sample key_32 (replicate 84 b'A') hello)
open_asymmetric_iff_example =
    open_asymmetric_iff sample_curve sample key_32 (replicate 84 b'A') hello
