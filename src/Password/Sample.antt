-- ===== src/Password/Sample.antt =====
-- A key function for concrete runs: the length of the password, in every place.
use crypt.Base.{ℕ, ◌≡◌, ◌%◌, length, replicate, length-replicate, All-replicate, arith}
use crypt.Wire.{Bytes, IsByte, IsBytes}
use crypt.Password.{Argon2}

pub sample_key : Bytes → Bytes → ℕ → ℕ → ℕ → ℕ → Bytes
sample_key password salt time memory threads key_len = replicate key_len (length password % 256)

pub length-sample_key :
    (password salt : Bytes) (time memory threads key_len : ℕ)
    → length (sample_key password salt time memory threads key_len) ≡ key_len
unfolding sample_key
length-sample_key password salt time memory threads key_len =
    length-replicate key_len (length password % 256)

pub sample_key-IsBytes :
    (password salt : Bytes) (time memory threads key_len : ℕ)
    → IsBytes (sample_key password salt time memory threads key_len)
unfolding sample_key
sample_key-IsBytes password salt time memory threads key_len =
    All-replicate IsByte key_len (length password % 256) (omega arith)

unfoldable pub sample_argon2 : Argon2
unfolding sample_key
sample_argon2 = record {
  id_key = sample_key;
  length-id_key = length-sample_key;
  id_key-IsBytes = sample_key-IsBytes;
}
