-- ===== src/Cbc.antt =====
-- cbc.go: AES-CBC with PKCS#7 padding, not authenticated. The chaining mode of crypto/cipher over
-- AES is a parameter; `Padding` is the padding, `Encrypt` and `Decrypt` the functions.
pub mod Padding
pub mod Encrypt
pub mod Decrypt
pub mod Laws
pub mod Sample
mod Tests
use crypt.Base.{ℕ, ◌≡◌, ◌%◌, ◌&&◌, ◌||◌, ◌==◌, length, if◌then◌else◌, Bool}
use crypt.Base.Outcome.{Result, ok, err, panic, cipher_setup}
use crypt.Wire.{Bytes, IsBytes}

-- `CryptBlocks` of an encrypter and of a decrypter for a key and an initialisation vector. On
-- whole blocks the two undo one another, and keep the length.
pub record Mode : Type 0 where
  pub encrypt : Bytes → Bytes → Bytes → Bytes
  pub decrypt : Bytes → Bytes → Bytes → Bytes
  pub decrypt-encrypt : (key iv plain : Bytes) → decrypt key iv (encrypt key iv plain) ≡ plain
  pub encrypt-decrypt : (key iv body : Bytes) → encrypt key iv (decrypt key iv body) ≡ body
  pub length-encrypt : (key iv plain : Bytes) → length (encrypt key iv plain) ≡ length plain
  pub encrypt-IsBytes : (key iv plain : Bytes) → IsBytes plain → IsBytes (encrypt key iv plain)

abbrev pub block_size : ℕ
block_size = 16

-- `validCBCKeyLen`
abbrev pub valid_cbc_key_len : ℕ → Bool
valid_cbc_key_len n = n == 16 || n == 24 || n == 32

-- `aes.NewCipher`
abbrev pub new_aes : Bytes → Result Bytes
new_aes key =
    if length key == 16 || length key == 24 || length key == 32 then ok key else err cipher_setup

-- `CryptBlocks`, which panics on a part of a block and on an IV of another length.
abbrev pub crypt_blocks : (Bytes → Bytes → Bytes → Bytes) → Bytes → Bytes → Bytes → Result Bytes
crypt_blocks f key iv input =
    if length iv == block_size && length input % block_size == 0 then ok (f key iv input) else panic
