-- ===== src/Cbc/Encrypt.antt =====
-- cbc.go: `EncryptCBC`, and the older names for it.
use crypt.Base.{◌++◌, length, if◌then◌else◌}
use crypt.Base.Outcome.{Result, ok, err, guard, invalid_key}
use crypt.Wire.{Bytes}
use crypt.Wire.Hex
use crypt.Entropy.{Drawing, draw, lift, ◌>>=◌, ◌>>◌}
use crypt.Cbc.{Mode, block_size, valid_cbc_key_len, new_aes, crypt_blocks}
use crypt.Cbc.Padding.{pad}

-- `EncryptCBC`
unfoldable pub encrypt_cbc : Mode → Bytes → Bytes → Drawing Bytes
encrypt_cbc mode key plaintext = do
  lift (guard (valid_cbc_key_len (length key)) invalid_key)
  let plain = pad plaintext block_size
  block ← lift (new_aes key)
  iv ← draw block_size
  body ← lift (crypt_blocks mode.encrypt block iv plain)
  lift (ok (Hex.encode (iv ++ body)))

-- `Cipher`
pub record BlockCipher : Type 0 where
  pub key : Bytes

-- `New`
unfoldable pub new_cipher : Bytes → Result BlockCipher
new_cipher key =
    if valid_cbc_key_len (length key) then ok (record { key = key }) else err invalid_key

-- `Cipher.Encrypt`
unfoldable pub cipher_encrypt : Mode → BlockCipher → Bytes → Drawing Bytes
cipher_encrypt mode c plaintext = encrypt_cbc mode c.key plaintext

-- `EncryptWithKey`
unfoldable pub encrypt_with_key : Mode → Bytes → Bytes → Drawing Bytes
encrypt_with_key mode key plaintext = encrypt_cbc mode key plaintext
