-- ===== src/Password/Hash.antt =====
-- password.go: `HashPassword`.
use crypt.Base.Outcome.{ok}
use crypt.Wire.{Bytes}
use crypt.Entropy.{Drawing, draw, lift, ◌>>=◌}
use crypt.Password.{
  Argon2, id_key_with, argon_salt_len, argon_time_cost, argon_memory_kib, argon_parallel,
  argon_key_len,
}
use crypt.Password.Phc.{format_phc}

-- `HashPassword`
unfoldable pub hash_password : Argon2 → Bytes → Drawing Bytes
hash_password argon2 plaintext = do
  salt ← draw argon_salt_len
  hash ← lift (
      id_key_with argon2 plaintext salt argon_time_cost argon_memory_kib argon_parallel
        argon_key_len)
  lift (ok (format_phc salt hash))
