-- ===== src/Examples/Rehash/Tests.antt =====
-- The theorem on `loginAndRehash` at a concrete user, with the sample schemes.
use crypt.Base.{◌≡◌, refl, ◌++◌, true, same, take, drop, arith}
use crypt.Base.Int.{pos}
use crypt.Base.Outcome.{ok, guard, invalid_credentials}
use crypt.Wire.Text.{codes, has_prefix}
use crypt.Password.RoundTrip.{key_of}
use crypt.Password.Sample.{sample_argon2}
use crypt.Bcrypt.{default_bcrypt_cost, hash_password_bcrypt}
use crypt.Bcrypt.Sample.{sample_bcrypt, sample_generate}
use crypt.Examples.Rehash.{User, login_and_rehash}
use crypt.Examples.Rehash.Logins.{login_and_rehash-migrates}
use crypt.Samples.{hello, context, source}

abbrev alice : User
alice = record { email = codes "alice@example.com"; password_hash = codes "$2" ++ hello }

alice_hash :
    hash_password_bcrypt sample_bcrypt hello hello (pos default_bcrypt_cost)
    ≡ ok alice.password_hash
unfolding hash_password_bcrypt sample_bcrypt sample_generate
alice_hash = refl

login_and_rehash-migrates_example :
    (u' : User) × (login_and_rehash sample_argon2 sample_bcrypt alice hello source
      ≡ (u', ok tt, record source { content = drop 16 source.content }))
    × (u'.email ≡ alice.email)
    × (has_prefix u'.password_hash (codes "$argon2") ≡ true)
    × (login_and_rehash sample_argon2 sample_bcrypt u' hello source ≡ (u', ok tt, source))
    × (login_and_rehash sample_argon2 sample_bcrypt u' context source ≡ (
      u',
      guard
          (same
            (key_of sample_argon2 context (take 16 source.content))
            (key_of sample_argon2 hello (take 16 source.content)))
          invalid_credentials,
      source,
    ))
login_and_rehash-migrates_example =
    login_and_rehash-migrates sample_argon2 sample_bcrypt alice hello context hello
      (pos default_bcrypt_cost) source source alice_hash (omega arith) (omega arith)
