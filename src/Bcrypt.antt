-- ===== src/Bcrypt.antt =====
-- password_bcrypt.go: bcrypt password hashes. golang.org/x/crypto/bcrypt is a parameter.
pub mod Laws
pub mod Sample
mod Tests
use crypt.Base.{ℕ, ◌≡◌, ◌∙◌, ◌≤◌, Bool, true, false, length, ltb, leb, not, ◌&&◌, if◌then◌else◌}
use crypt.Base.Int.{ℤ, pos, at_least, magnitude}
use crypt.Base.Outcome.{
  Result, ok, err, guard, ◌>>=◌, ◌>>◌, bind-returns, input_too_long, bad_cost,
  invalid_password_hash,
}
use crypt.Wire.{Bytes}
use crypt.Wire.Text.{codes, has_prefix}

-- How `bcrypt.CompareHashAndPassword` ends.
pub data Comparison : Type 0 where
  matched mismatched hash_too_short other_failure : Comparison

-- `bcrypt.GenerateFromPassword`, of the random bytes that it reads by itself, a password and a
-- cost; and the comparison, which finds the password of a generated hash.
pub record Bcrypt : Type 0 where
  pub generate : Bytes → Bytes → ℕ → Result Bytes
  pub compare_hash : Bytes → Bytes → Comparison
  pub compare-generate :
      (random password hash : Bytes) (cost : ℕ)
      → generate random password cost ≡ ok hash
      → compare_hash hash password ≡ matched
  pub generate-prefix :
      (random password hash : Bytes) (cost : ℕ)
      → generate random password cost ≡ ok hash
      → has_prefix hash (codes "$2") ≡ true

abbrev pub bcrypt_max_input_len : ℕ
bcrypt_max_input_len = 72

abbrev pub default_bcrypt_cost : ℕ
default_bcrypt_cost = 12

-- `bcrypt.MinCost` and `bcrypt.MaxCost`
abbrev pub min_cost : ℕ
min_cost = 4

abbrev pub max_cost : ℕ
max_cost = 31

-- `HashPasswordBcrypt`
unfoldable pub hash_password_bcrypt : Bcrypt → Bytes → Bytes → ℤ → Result Bytes
hash_password_bcrypt bcrypt random plaintext cost = do
  guard (not (ltb bcrypt_max_input_len (length plaintext))) input_too_long
  guard (at_least cost (pos min_cost) && at_least (pos max_cost) cost) bad_cost
  hash ← bcrypt.generate random plaintext (magnitude cost)
  ok hash

abbrev pub answer : Comparison → Result Bool
answer matched = ok true
answer mismatched = ok false
answer hash_too_short = err invalid_password_hash
answer other_failure = err invalid_password_hash

-- `VerifyPasswordBcrypt`
unfoldable pub verify_password_bcrypt : Bcrypt → Bytes → Bytes → Result Bool
verify_password_bcrypt bcrypt plaintext hash = answer (bcrypt.compare_hash hash plaintext)
