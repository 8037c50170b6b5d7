-- ===== src/Examples/Accounts.antt =====
-- examples/hash_password: accounts by email, with Argon2id hashes.
pub mod Logins
use crypt.Base.{true, false}
use crypt.Base.Outcome.{
  Result, ok, err, panic, guard, or_fail, ◌>>=◌, email_registered, invalid_credentials,
}
use crypt.Wire.{Bytes}
use crypt.Assoc.{Map, lookup, has, insert}
use crypt.Entropy.{Reader}
use crypt.Password.{Argon2}
use crypt.Password.Hash.{hash_password}
use crypt.Password.Verify.{verify_password}

-- The accounts, the outcome and the source behind `HashPassword`.
abbrev pub registered : Map → Bytes → Result Bytes × Reader → Map × Result (Unit {0}) × Reader
registered users email (ok hash, r) = (insert email hash users, ok tt, r)
registered users email (err e, r) = (users, err e, r)
registered users email (panic, r) = (users, panic, r)

-- `register`
unfoldable pub register : Argon2 → Map → Bytes → Bytes → Reader → Map × Result (Unit {0}) × Reader
register argon2 users email password r = elim (has email users) [
  | true ↦ (users, err email_registered, r)
  | false ↦ registered users email (hash_password argon2 password r)
]

-- `login`
unfoldable pub login : Argon2 → Map → Bytes → Bytes → Result (Unit {0})
login argon2 users email password = do
  hash ← or_fail (lookup email users) invalid_credentials
  matches ← verify_password argon2 password hash
  guard matches invalid_credentials
