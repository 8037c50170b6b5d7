-- ===== src/Bcrypt/Laws.antt =====
-- What `HashPasswordBcrypt` accepts, and that `VerifyPasswordBcrypt` finds its password again.
use crypt.Base.{
  Bool-cases, inl, inr, ltb→le, le→ltb, ◌≡◌, ◌∙◌, refl, ap, ◌≤◌, ◌↔◌, Bool, true, length, ltb, not,
  ◌&&◌,
}
use crypt.Base.Int.{ℤ, pos, at_least, magnitude}
use crypt.Base.Outcome.{ok, guard, ◌>>=◌, bind-returns, input_too_long, bad_cost}
use crypt.Wire.{Bytes}
use crypt.Bcrypt.{
  Bcrypt, bcrypt_max_input_len, answer, min_cost, max_cost, hash_password_bcrypt,
  verify_password_bcrypt,
}

-- What `HashPasswordBcrypt` returns was generated.
pub generated :
    (bcrypt : Bcrypt) (random plaintext hash : Bytes) (cost : ℤ)
    → hash_password_bcrypt bcrypt random plaintext cost ≡ ok hash
    → bcrypt.generate random plaintext (magnitude cost) ≡ ok hash
unfolding hash_password_bcrypt
generated bcrypt random plaintext hash cost h =
    let generation = bcrypt.generate random plaintext (magnitude cost) in
    let in_range : Bool = at_least cost (pos min_cost) && at_least (pos max_cost) cost in
    let (_, _, h1) =
      bind-returns (guard (not (ltb bcrypt_max_input_len (length plaintext))) input_too_long)
        (λ _. guard in_range bad_cost >>= (λ _. generation >>= (λ out. ok out))) h in
    let (_, _, h2) =
      bind-returns (guard in_range bad_cost) (λ _. generation >>= (λ out. ok out)) h1 in
    let (_, made, same_out) = bind-returns generation (λ out. ok out) h2 in made ∙ same_out

-- `HashPasswordBcrypt` returns a hash exactly if the password has at most 72 bytes, the cost is
-- from 4 to 31 and bcrypt generates that hash, for which `VerifyPasswordBcrypt` then answers the
-- password by true.
pub hash_password_bcrypt_iff :
    (bcrypt : Bcrypt) (random plaintext hash : Bytes) (cost : ℤ)
    → (hash_password_bcrypt bcrypt random plaintext cost ≡ ok hash) ↔ (
        (length plaintext ≤ 72)
        × (at_least cost (pos 4) ≡ true)
        × (at_least (pos 31) cost ≡ true)
        × (bcrypt.generate random plaintext (magnitude cost) ≡ ok hash)
        × (verify_password_bcrypt bcrypt plaintext hash ≡ ok true))
unfolding hash_password_bcrypt verify_password_bcrypt
hash_password_bcrypt_iff bcrypt random plaintext hash cost = (accepted, accepts)
  where
    accepted :
        hash_password_bcrypt bcrypt random plaintext cost ≡ ok hash
        → (length plaintext ≤ 72)
          × (at_least cost (pos 4) ≡ true)
          × (at_least (pos 31) cost ≡ true)
          × (bcrypt.generate random plaintext (magnitude cost) ≡ ok hash)
          × (verify_password_bcrypt bcrypt plaintext hash ≡ ok true)
    accepted e =
        let made = generated bcrypt random plaintext hash cost e in
        elim (Bool-cases (ltb 72 (length plaintext))) [
          | inl long ↦ cc (rw long at e)
          | inr short ↦ elim (Bool-cases (at_least cost (pos 4))) [
            | inr low ↦ cc (rw (short, low) at e)
            | inl high ↦ elim (Bool-cases (at_least (pos 31) cost)) [
              | inr far ↦ cc (rw (short, high, far) at e)
              | inl near ↦ (
                ltb→le 72 (length plaintext) short,
                high,
                near,
                made,
                ap answer (bcrypt.compare-generate random plaintext hash (magnitude cost) made),
              )
            ]
          ]
        ]

    accepts :
        (length plaintext ≤ 72)
          × (at_least cost (pos 4) ≡ true)
          × (at_least (pos 31) cost ≡ true)
          × (bcrypt.generate random plaintext (magnitude cost) ≡ ok hash)
          × (verify_password_bcrypt bcrypt plaintext hash ≡ ok true)
        → hash_password_bcrypt bcrypt random plaintext cost ≡ ok hash
    accepts (short, high, near, made, verified) =
        rw (le→ltb 72 (length plaintext) short, high, near, made) refl
