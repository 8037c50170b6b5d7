-- ===== src/Examples/Accounts/Logins.antt =====
-- A registration and the logins that follow.
use crypt.Base.{
  ◌≤◌, ◌≡◌, refl, true, false, length, take, drop, same, if◌then◌else◌, Bool-cases, inl, inr,
}
use crypt.Base.Outcome.{ok, err, guard, email_registered, invalid_credentials}
use crypt.Wire.{Bytes, IsBytes}
use crypt.Assoc.{Map, has, insert, lookup-insert}
use crypt.Entropy.{Reader}
use crypt.Password.{Argon2}
use crypt.Password.RoundTrip.{key_of, stored_text, hash_password_lem, verify_password-stored_text}
use crypt.Examples.Accounts.{register, login}

module _ (argon2 : Argon2) (users : Map) (email password : Bytes) (r : Reader) where
  -- The accounts after a registration that succeeds.
  abbrev pub with_account : Map
  with_account = insert email (stored_text argon2 password r) users

  pub register_lem :
      has email users ≡ false
      → 16 ≤ length r.content
      → register argon2 users email password r
        ≡ (with_account, ok tt, record r { content = drop 16 r.content })
  unfolding register
  register_lem missing enough =
      rw (register, missing, hash_password_lem argon2 password r enough) refl

  -- A second registration of an email changes nothing and draws nothing.
  pub register_taken :
      has email users ≡ true
      → register argon2 users email password r ≡ (users, err email_registered, r)
  unfolding register
  register_taken taken = rw (register, taken) refl

  -- A login to the new account is decided by the keys of the two passwords, and every other login
  -- is answered as before.
  pub login-with_account :
      (other candidate : Bytes)
      → IsBytes r.content
      → 16 ≤ length r.content
      → login argon2 with_account other candidate ≡ (
          if same email other
          then guard
              (same
                (key_of argon2 candidate (take 16 r.content))
                (key_of argon2 password (take 16 r.content)))
              invalid_credentials
          else login argon2 users other candidate)
  unfolding login
  login-with_account other candidate hr enough =
      let found = lookup-insert email other (stored_text argon2 password r) users in
      let checked = verify_password-stored_text argon2 password candidate r hr enough in
      elim (Bool-cases (same email other)) [
        | inl own ↦ rw (login, found, own, checked) refl
        | inr another ↦ rw (login, found, another) refl
      ]
