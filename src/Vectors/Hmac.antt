-- ===== src/Vectors/Hmac.antt =====
-- cmd/gen-vectors: `hmacVectors`.
use crypt.Base.{List, [], ◌∷◌}
use crypt.Base.Outcome.{Result, ok, or_fail, ◌>>=◌, exited}
use crypt.Wire.{Bytes}
use crypt.Wire.Text.{codes}
use crypt.Wire.Hex
use crypt.Sign.{Hmac}
use crypt.Vectors.{repeat_hex, for_each}

-- A row of the table in `hmacVectors`.
pub record HmacSpec : Type 0 where
  pub name : Bytes
  pub key_hex : Bytes
  pub data_hex : Bytes

-- `HMACVector`: the row and the expected tag.
pub record HmacVector : Type 0 where
  pub spec : HmacSpec
  pub expected_hex : Bytes

abbrev pub hmac_specs : List HmacSpec
hmac_specs =
    record { name = codes "empty data"; key_hex = repeat_hex (codes "aa") 32; data_hex = [] }
    ∷ record {
      name = codes "short ASCII data";
      key_hex = repeat_hex (codes "aa") 32;
      data_hex = Hex.encode (codes "hello");
    }
    ∷ record {
      name = codes "long ASCII data";
      key_hex = codes "0123456789abcdef0123456789abcdef0123456789abcdef0123456789abcdef";
      data_hex = Hex.encode (codes "the quick brown fox jumps over the lazy dog");
    }
    ∷ record {
      name = codes "binary data";
      key_hex = codes "fedcba9876543210fedcba9876543210fedcba9876543210fedcba9876543210";
      data_hex = codes "000102fffefd";
    }
    ∷ []

-- The body of the loop; the error on the key is dropped.
unfoldable pub hmac_vector : Hmac → HmacSpec → Result HmacVector
hmac_vector h s = do
  text ← or_fail (Hex.decode s.data_hex) exited
  ok (record { spec = s; expected_hex = Hex.encode (h.tag (Hex.decode_prefix s.key_hex) text) })

-- `hmacVectors`
unfoldable pub hmac_vectors : Hmac → Result (List HmacVector)
hmac_vectors h = for_each (hmac_vector h) hmac_specs
