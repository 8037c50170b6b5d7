-- ===== src/Vectors/Document.antt =====
-- cmd/gen-vectors: the document that `main` hands to the JSON encoder.
use crypt.Base.{ℕ, List}
use crypt.Base.Outcome.{Result, ok, ◌>>=◌}
use crypt.Wire.{Bytes}
use crypt.Wire.Text.{codes}
use crypt.Cipher.{Aead}
use crypt.Cbc.{Mode}
use crypt.Sign.{Hmac}
use crypt.Vectors.Aead.{AeadVector, aead_vectors}
use crypt.Vectors.Hmac.{HmacVector, hmac_vectors}
use crypt.Vectors.Cbc.{CbcVector, cbc_vectors}

-- `Vectors`
pub record Document : Type 0 where
  pub version : ℕ
  pub notes : Bytes
  pub aead : List AeadVector
  pub hmac : List HmacVector
  pub cbc : List CbcVector

-- The notes of the document
abbrev pub vector_notes : Bytes
vector_notes =
    codes
      "Cross-language test vectors for github.com/ubgo/crypt and @ubgo/crypt. Both Go and TS test suites consume this file. Regenerate with: go run ./cmd/gen-vectors > testdata/vectors.json"

-- `main`, up to the encoder
unfoldable pub generate : Aead → Hmac → Mode → Result Document
generate gcm h mode = do
  aead ← aead_vectors gcm
  hmac ← hmac_vectors h
  cbc ← cbc_vectors mode
  ok (record { version = 1; notes = vector_notes; aead = aead; hmac = hmac; cbc = cbc })
