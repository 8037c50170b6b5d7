-- ===== src/Vectors/Aead.antt =====
-- cmd/gen-vectors: `aeadVectors`.
use crypt.Base.{ℕ, List, [], ◌∷◌, ◌++◌}
use crypt.Base.Outcome.{Result, ok, or_fail, instead, ◌>>=◌, exited}
use crypt.Wire.{Bytes}
use crypt.Wire.Text.{codes}
use crypt.Wire.Base64
use crypt.Wire.Hex
use crypt.Cipher.{Aead, new_gcm, seal_with}
use crypt.Vectors.{repeat_hex, for_each}

-- A row of the table in `aeadVectors`.
pub record AeadSpec : Type 0 where
  pub name : Bytes
  pub key_hex : Bytes
  pub nonce_hex : Bytes
  pub aad_hex : Bytes
  pub plaintext_hex : Bytes

-- `AEADVector`: the row and the expected token.
pub record AeadVector : Type 0 where
  pub spec : AeadSpec
  pub expected_b64url : Bytes

-- `VersionAEADv1` of the generator
abbrev pub vector_version : ℕ
vector_version = 1

abbrev pub aead_specs : List AeadSpec
aead_specs =
    record {
      name = codes "all-zero key, all-zero nonce, empty plaintext, no AAD";
      key_hex = repeat_hex (codes "00") 32;
      nonce_hex = repeat_hex (codes "00") 12;
      aad_hex = [];
      plaintext_hex = [];
    }
    ∷ record {
      name = codes "all-zero key, all-zero nonce, ASCII plaintext, no AAD";
      key_hex = repeat_hex (codes "00") 32;
      nonce_hex = repeat_hex (codes "00") 12;
      aad_hex = [];
      plaintext_hex = Hex.encode (codes "hello, world");
    }
    ∷ record {
      name = codes "all-zero key, all-zero nonce, ASCII plaintext, ASCII AAD";
      key_hex = repeat_hex (codes "00") 32;
      nonce_hex = repeat_hex (codes "00") 12;
      aad_hex = Hex.encode (codes "user:42");
      plaintext_hex = Hex.encode (codes "hello, world");
    }
    ∷ record {
      name = codes "patterned key, patterned nonce, longer plaintext";
      key_hex = codes "000102030405060708090a0b0c0d0e0f101112131415161718191a1b1c1d1e1f";
      nonce_hex = codes "111213141516171819101a1b";
      aad_hex = Hex.encode (codes "context-binding-string");
      plaintext_hex = Hex.encode (codes "the quick brown fox jumps over the lazy dog 0123456789");
    }
    ∷ record {
      name = codes "binary plaintext, no AAD";
      key_hex = codes "0123456789abcdef0123456789abcdef0123456789abcdef0123456789abcdef";
      nonce_hex = codes "fedcba9876543210fedcba98";
      aad_hex = [];
      plaintext_hex = codes "000102030405060708090a0b0c0d0e0ffefcfdf8f0e0d0c0b0a0908070605040";
    }
    ∷ []

-- `if s.aadHex != ""`
abbrev pub aad_of : Bytes → Result Bytes
aad_of [] = ok []
aad_of (c ∷ text) = or_fail (Hex.decode (c ∷ text)) exited

-- The body of the loop; the errors on the key and on the nonce are dropped.
unfoldable pub aead_vector : Aead → AeadSpec → Result AeadVector
aead_vector gcm s = do
  plaintext ← or_fail (Hex.decode s.plaintext_hex) exited
  aad ← aad_of s.aad_hex
  bound ← instead exited (new_gcm (Hex.decode_prefix s.key_hex))
  body ← seal_with gcm bound (Hex.decode_prefix s.nonce_hex) plaintext aad
  let buf = vector_version ∷ (Hex.decode_prefix s.nonce_hex ++ body)
  ok (record { spec = s; expected_b64url = Base64.encode Base64.url buf })

-- `aeadVectors`
unfoldable pub aead_vectors : Aead → Result (List AeadVector)
aead_vectors gcm = for_each (aead_vector gcm) aead_specs
