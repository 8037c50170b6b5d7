-- ===== src/Vectors/Cbc.antt =====
-- cmd/gen-vectors: `cbcVectors`.
use crypt.Base.{List, [], ◌∷◌, ◌++◌}
use crypt.Base.Outcome.{Result, ok, or_fail, instead, ◌>>=◌, exited}
use crypt.Wire.{Bytes}
use crypt.Wire.Text.{codes}
use crypt.Wire.Hex
use crypt.Cbc.{Mode, block_size, new_aes, crypt_blocks}
use crypt.Vectors.{repeat_hex, pkcs7_pad, for_each}

-- A row of the table in `cbcVectors`.
pub record CbcSpec : Type 0 where
  pub name : Bytes
  pub key_hex : Bytes
  pub iv_hex : Bytes
  pub plaintext_hex : Bytes

-- `CBCVector`: the row and the expected text.
pub record CbcVector : Type 0 where
  pub spec : CbcSpec
  pub expected_hex : Bytes

abbrev pub cbc_specs : List CbcSpec
cbc_specs =
    record {
      name = codes "AES-256-CBC, short plaintext";
      key_hex = repeat_hex (codes "00") 32;
      iv_hex = repeat_hex (codes "11") 16;
      plaintext_hex = Hex.encode (codes "hello");
    }
    ∷ record {
      name = codes "AES-256-CBC, exact-block plaintext";
      key_hex = repeat_hex (codes "00") 32;
      iv_hex = repeat_hex (codes "22") 16;
      plaintext_hex = Hex.encode (codes "0123456789abcdef");
    }
    ∷ record {
      name = codes "AES-256-CBC, longer plaintext";
      key_hex = codes "0123456789abcdef0123456789abcdef0123456789abcdef0123456789abcdef";
      iv_hex = codes "fedcba9876543210fedcba9876543210";
      plaintext_hex = Hex.encode (codes "the quick brown fox jumps over the lazy dog");
    }
    ∷ []

-- The body of the loop; the errors on the key and on the IV are dropped.
unfoldable pub cbc_vector : Mode → CbcSpec → Result CbcVector
cbc_vector mode s = do
  plaintext ← or_fail (Hex.decode s.plaintext_hex) exited
  block ← instead exited (new_aes (Hex.decode_prefix s.key_hex))
  let padded = pkcs7_pad plaintext block_size
  ct ← crypt_blocks mode.encrypt block (Hex.decode_prefix s.iv_hex) padded
  ok (record { spec = s; expected_hex = Hex.encode (Hex.decode_prefix s.iv_hex ++ ct) })

-- `cbcVectors`
unfoldable pub cbc_vectors : Mode → Result (List CbcVector)
cbc_vectors mode = for_each (cbc_vector mode) cbc_specs
