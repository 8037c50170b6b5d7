-- ===== src/Examples/SignedBox/Tests.antt =====
-- The theorem on examples/asymmetric_encrypt with the sample curve, cipher and scheme.
use crypt.Base.{drop, ◌≡◌, refl, some, [], ◌∷◌, ◌++◌, true, false, length, take, replicate, arith}
use crypt.Base.Outcome.{ok}
use crypt.Wire.{Bytes}
use crypt.Wire.Text.{codes}
use crypt.Entropy.{Reader}
use crypt.Cipher.Sample.{sample}
use crypt.Asymmetric.Seal.{seal_asymmetric}
use crypt.Asymmetric.Open.{open_asymmetric}
use crypt.Asymmetric.Sample.{base, sample_curve, exchange_total, length-exchange}
use crypt.Ed25519.Sample.{sample_scheme}
use crypt.Examples.Program.{text, flag}
use crypt.Examples.SignedBox.{padded, tampering, signed_box_main}
use crypt.Examples.SignedBox.Run.{message, signed_box_main-prints}

abbrev nines : Reader
nines = record { content = replicate 184 9; faulty = false }

sample_public_exists :
    (k : Bytes)
    → length k ≡ 32
    → (p : Bytes) × (sample_curve.x25519 k sample_curve.basepoint ≡ some p)
unfolding sample_curve
sample_public_exists k hk = exchange_total k base hk refl

sample_secret_exists :
    (a b p : Bytes)
    → length a ≡ 32
    → sample_curve.x25519 b sample_curve.basepoint ≡ some p
    → (s : Bytes) × (sample_curve.x25519 a p ≡ some s)
unfolding sample_curve
sample_secret_exists a b p ha hp = exchange_total a p ha (length-exchange b base p hp)

signed_box_main-prints_example :
    (recipient token : Bytes) × (sample_curve.x25519 (take 32 nines.content) sample_curve.basepoint
      ≡ some recipient)
    × (seal_asymmetric sample_curve sample recipient message
          (record nines { content = drop 32 nines.content })
        ≡ (ok token, record nines { content = drop 12 (drop 32 (drop 32 nines.content)) }))
    × (signed_box_main sample_curve sample sample_scheme (record { random = nines; printed = [] })
        ≡ (
          ok tt,
          record {
            random = record nines {
              content =
                  drop 12 (drop 32 (drop 32 (drop 32 (drop 12 (drop 32 (drop 32 nines.content))))));
            };
            printed =
                ((text (padded recipient)
                    ∷ text (take 24 (padded (take 32 nines.content)) ++ codes "...")
                    ∷ text token
                    ∷ text message
                    ∷ [])
                  ++ tampering (
                      open_asymmetric sample_curve sample
                        (take 32 (drop 12 (drop 32 (drop 32 nines.content))))
                        token))
                ++ (flag true ∷ text message ∷ []);
          },
        ))
signed_box_main-prints_example =
    signed_box_main-prints sample_curve sample sample_public_exists sample_secret_exists
      sample_scheme nines (omega arith) (omega arith)
