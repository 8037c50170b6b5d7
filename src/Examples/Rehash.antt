-- ===== src/Examples/Rehash.antt =====
-- examples/bcrypt_migration: a login that replaces a bcrypt hash by an Argon2id hash.
pub mod Logins
mod Tests
use crypt.Base.{ℕ, Bool, true, false, if◌then◌else◌}
use crypt.Base.Outcome.{
  Result, ok, err, panic, guard, ◌>>=◌, ◌>>◌, invalid_credentials, unknown_hash_format,
}
use crypt.Wire.{Bytes}
use crypt.Wire.Text.{codes, has_prefix}
use crypt.Entropy.{Reader}
use crypt.Password.{Argon2}
use crypt.Password.Hash.{hash_password}
use crypt.Password.Verify.{verify_password}
use crypt.Bcrypt.{Bcrypt, verify_password_bcrypt}

-- `fakeUser`
pub record User : Type 0 where
  pub email : Bytes
  pub password_hash : Bytes

-- The user, the outcome and the source behind `HashPassword`.
abbrev pub rehashed : User → Result Bytes × Reader → User × Result (Unit {0}) × Reader
rehashed u (ok hash, r) = (record u { password_hash = hash }, ok tt, r)
rehashed u (err e, r) = (u, err e, r)
rehashed u (panic, r) = (u, panic, r)

-- What follows `VerifyPasswordBcrypt`.
unfoldable pub after_bcrypt :
    Argon2 → User → Bytes → Result Bool → Reader → User × Result (Unit {0}) × Reader
after_bcrypt argon2 u plaintext (ok true) r = rehashed u (hash_password argon2 plaintext r)
after_bcrypt argon2 u plaintext (ok false) r = (u, err invalid_credentials, r)
after_bcrypt argon2 u plaintext (err e) r = (u, err e, r)
after_bcrypt argon2 u plaintext panic r = (u, panic, r)

-- `loginAndRehash`
unfoldable pub login_and_rehash :
    Argon2 → Bcrypt → User → Bytes → Reader → User × Result (Unit {0}) × Reader
login_and_rehash argon2 bcrypt u plaintext r =
    if has_prefix u.password_hash (codes "$2")
    then after_bcrypt argon2 u plaintext (verify_password_bcrypt bcrypt plaintext u.password_hash) r
    else if has_prefix u.password_hash (codes "$argon2")
    then (
      u,
      (verify_password argon2 plaintext u.password_hash >>= λ matches.
          guard matches invalid_credentials),
      r,
    )
    else (u, err unknown_hash_format, r)
