-- ===== src/Cbc/Decrypt.antt =====
-- cbc.go: `DecryptCBC`, and the older names for it.
use crypt.Base.{◌%◌, length, ltb, ◌==◌, not}
use crypt.Base.Outcome.{
  Result, ok, guard, or_fail, ◌>>=◌, ◌>>◌, slice, slice_from, invalid_key, invalid_ciphertext,
  ciphertext_too_short, ciphertext_not_block_aligned,
}
use crypt.Wire.{Bytes}
use crypt.Wire.Hex
use crypt.Cbc.{Mode, block_size, valid_cbc_key_len, new_aes, crypt_blocks}
use crypt.Cbc.Padding.{unpad}
use crypt.Cbc.Encrypt.{BlockCipher}

-- `DecryptCBC`
unfoldable pub decrypt_cbc : Mode → Bytes → Bytes → Result Bytes
decrypt_cbc mode key ciphertext = do
  guard (valid_cbc_key_len (length key)) invalid_key
  raw ← or_fail (Hex.decode ciphertext) invalid_ciphertext
  guard (not (ltb (length raw) block_size)) ciphertext_too_short
  block ← new_aes key
  iv ← slice 0 block_size raw
  body ← slice_from block_size raw
  guard (length body % block_size == 0) ciphertext_not_block_aligned
  plain ← crypt_blocks mode.decrypt block iv body
  unpad plain block_size

-- `Cipher.Decrypt`
unfoldable pub cipher_decrypt : Mode → BlockCipher → Bytes → Result Bytes
cipher_decrypt mode c ciphertext = do out ← decrypt_cbc mode c.key ciphertext; ok out

-- `DecryptWithKey`
unfoldable pub decrypt_with_key : Mode → Bytes → Bytes → Result Bytes
decrypt_with_key mode key ciphertext = do out ← decrypt_cbc mode key ciphertext; ok out
