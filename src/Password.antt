-- ===== src/Password.antt =====
-- password.go: Argon2id password hashes in PHC format. The function of golang.org/x/crypto/argon2
-- is a parameter; `Phc` is the format, `Hash` and `Verify` the two functions.
pub mod Phc
pub mod Hash
pub mod Verify
pub mod RoundTrip
pub mod Panics
pub mod Sample
mod Tests
use crypt.Base.{ℕ, ◌≡◌, ◌*◌, ◌||◌, ◌==◌, length, if◌then◌else◌}
use crypt.Base.Outcome.{Result, ok, panic}
use crypt.Wire.{Bytes, IsBytes}
use crypt.Wire.Text.{codes}

-- `argon2.IDKey` of a password, a salt, the numbers of rounds, of KiB and of threads, and the
-- length of the key.
pub record Argon2 : Type 0 where
  pub id_key : Bytes → Bytes → ℕ → ℕ → ℕ → ℕ → Bytes
  pub length-id_key :
      (password salt : Bytes) (time memory threads key_len : ℕ)
      → length (id_key password salt time memory threads key_len) ≡ key_len
  pub id_key-IsBytes :
      (password salt : Bytes) (time memory threads key_len : ℕ)
      → IsBytes (id_key password salt time memory threads key_len)

-- It panics without a round or a thread.
abbrev pub id_key_with : Argon2 → Bytes → Bytes → ℕ → ℕ → ℕ → ℕ → Result Bytes
id_key_with a password salt time memory threads key_len =
    if time == 0 || threads == 0
    then panic
    else ok (a.id_key password salt time memory threads key_len)

abbrev pub argon_memory_kib : ℕ
argon_memory_kib = 64 * 1024

abbrev pub argon_time_cost : ℕ
argon_time_cost = 2

abbrev pub argon_parallel : ℕ
argon_parallel = 1

abbrev pub argon_salt_len : ℕ
argon_salt_len = 16

abbrev pub argon_key_len : ℕ
argon_key_len = 32

abbrev pub argon_algo : Bytes
argon_algo = codes "argon2id"

abbrev pub argon_version_tag : ℕ
argon_version_tag = 19

-- `argon2Params`
pub record Argon2Params : Type 0 where
  pub memory_kib : ℕ
  pub time_cost : ℕ
  pub parallel : ℕ
