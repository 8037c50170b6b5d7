-- ===== src/Vectors/Tests.antt =====
-- The theorem on cmd/gen-vectors with the sample primitives.
use crypt.Base.{◌≡◌, refl, All, length}
use crypt.Base.Outcome.{ok}
use crypt.Wire.Text.{codes}
use crypt.Cipher.Sample.{sample}
use crypt.Cbc.Sample.{sample_mode}
use crypt.Sign.Sample.{sample_hmac}
use crypt.Vectors.{repeat_hex}
use crypt.Vectors.Document.{Document, generate}
use crypt.Vectors.Agree.{AeadAgrees, HmacAgrees}
use crypt.Vectors.Blocks.{CbcAgrees}
use crypt.Vectors.Tables.{generate-agrees}

generate-agrees_example :
    (doc : Document) × (generate sample sample_hmac sample_mode ≡ ok doc)
    × (length doc.aead ≡ 5)
    × All (AeadAgrees sample) doc.aead
    × (length doc.hmac ≡ 4)
    × All (HmacAgrees sample_hmac) doc.hmac
    × (length doc.cbc ≡ 3)
    × All (CbcAgrees sample_mode) doc.cbc
generate-agrees_example = generate-agrees sample sample_hmac sample_mode

repeated : repeat_hex (codes "aa") 3 ≡ codes "aaaaaa"
unfolding repeat_hex
repeated = refl
