-- ===== src/Password/Verify.antt =====
-- password.go: `VerifyPassword`.
use crypt.Base.{◌%◌, ◌^◌, length, Bool, same}
use crypt.Base.Outcome.{Result, ok, ◌>>=◌}
use crypt.Wire.{Bytes}
use crypt.Password.{Argon2, id_key_with}
use crypt.Password.Phc.{parse_phc}

-- `VerifyPassword`
unfoldable pub verify_password : Argon2 → Bytes → Bytes → Result Bool
verify_password argon2 plaintext stored = do
  phc ← parse_phc stored
  computed ←
      id_key_with argon2 plaintext phc.salt phc.params.time_cost phc.params.memory_kib
        phc.params.parallel (length phc.hash % 2 ^ 32)
  ok (same computed phc.hash)
