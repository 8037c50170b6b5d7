-- ===== src/Examples/Rehash/Logins.antt =====
-- The first login of a user with a bcrypt hash, and the logins that follow.
use crypt.Base.{◌≤◌, ◌≡◌, refl, true, false, length, take, drop, same, same_self, ap, ◌∙◌}
use crypt.Base.Int.{ℤ, magnitude}
use crypt.Base.Outcome.{ok, guard, invalid_credentials}
use crypt.Wire.{Bytes, IsBytes}
use crypt.Wire.Text.{codes, has_prefix}
use crypt.Entropy.{Reader}
use crypt.Password.{Argon2}
use crypt.Password.RoundTrip.{key_of, stored_text, hash_password_lem, verify_password-stored_text}
use crypt.Password.Phc.{format_phc}
use crypt.Bcrypt.{Bcrypt, hash_password_bcrypt, verify_password_bcrypt}
use crypt.Bcrypt.Laws.{generated}
use crypt.Examples.Rehash.{User, after_bcrypt, login_and_rehash}

module _ (argon2 : Argon2) (bcrypt : Bcrypt) where
  argon2_prefix :
      (password : Bytes) (r : Reader)
      → (has_prefix (stored_text argon2 password r) (codes "$2") ≡ false)
        × (has_prefix (stored_text argon2 password r) (codes "$argon2") ≡ true)
  unfolding has_prefix format_phc
  argon2_prefix password r = (refl, refl)

  -- A login with any password at a hash that `HashPassword` made.
  login-stored_text :
      (u : User) (password candidate : Bytes) (r r' : Reader)
      → u.password_hash ≡ stored_text argon2 password r
      → IsBytes r.content
      → 16 ≤ length r.content
      → login_and_rehash argon2 bcrypt u candidate r' ≡ (
        u,
        guard
            (same
              (key_of argon2 candidate (take 16 r.content))
              (key_of argon2 password (take 16 r.content)))
            invalid_credentials,
        r',
      )
  unfolding login_and_rehash
  login-stored_text u password candidate r r' h hr enough =
      let (not_bcrypt, is_argon2) = argon2_prefix password r in
      rw
        (
          h,
          not_bcrypt,
          is_argon2,
          verify_password-stored_text argon2 password candidate r hr enough,
        )
        refl

  -- For a user whose hash `HashPasswordBcrypt` made of a password, and with 16 bytes in the source,
  -- a login with the password succeeds, keeps the email and replaces the hash by an Argon2id hash,
  -- and uses 16 bytes of the source up. A later login changes nothing and draws nothing: with the
  -- password it succeeds, and with any other it fails unless Argon2id gives both the same key.
  pub login_and_rehash-migrates :
      (u : User) (password other random : Bytes) (cost : ℤ) (r r' : Reader)
      → hash_password_bcrypt bcrypt random password cost ≡ ok u.password_hash
      → IsBytes r.content
      → 16 ≤ length r.content
      → (u' : User) × (login_and_rehash argon2 bcrypt u password r
          ≡ (u', ok tt, record r { content = drop 16 r.content }))
        × (u'.email ≡ u.email)
        × (has_prefix u'.password_hash (codes "$argon2") ≡ true)
        × (login_and_rehash argon2 bcrypt u' password r' ≡ (u', ok tt, r'))
        × (login_and_rehash argon2 bcrypt u' other r' ≡ (
          u',
          guard
              (same
                (key_of argon2 other (take 16 r.content))
                (key_of argon2 password (take 16 r.content)))
              invalid_credentials,
          r',
        ))
  unfolding login_and_rehash after_bcrypt verify_password_bcrypt
  login_and_rehash-migrates u password other random cost r r' made hr enough =
      let u' : User = record u { password_hash = stored_text argon2 password r } in
      let generation = generated bcrypt random password u.password_hash cost made in
      (
        u',
        rw
            (
              bcrypt.generate-prefix random password u.password_hash (magnitude cost) generation,
              bcrypt.compare-generate random password u.password_hash (magnitude cost) generation,
              hash_password_lem argon2 password r enough,
            )
            refl,
        refl,
        (argon2_prefix password r).1,
        login-stored_text u' password password r r' refl hr enough
            ∙ ap (λ b. (u', guard b invalid_credentials, r'))
                (same_self (key_of argon2 password (take 16 r.content))),
        login-stored_text u' password other r r' refl hr enough,
      )
