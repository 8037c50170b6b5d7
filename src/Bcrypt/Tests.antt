-- ===== src/Bcrypt/Tests.antt =====
-- The theorem on password_bcrypt.go at a concrete input, with the sample scheme.
use crypt.Base.{◌≡◌, ◌≤◌, ◌↔◌, refl, [], true, length, replicate}
use crypt.Base.Int.{pos, negsuc, at_least}
use crypt.Base.Outcome.{ok, err, input_too_long, bad_cost}
use crypt.Wire.Text.{codes}
use crypt.Bcrypt.{default_bcrypt_cost, hash_password_bcrypt, verify_password_bcrypt}
use crypt.Bcrypt.Laws.{hash_password_bcrypt_iff}
use crypt.Bcrypt.Sample.{sample_bcrypt}
use crypt.Samples.{hello}

hash_password_bcrypt_iff_example :
    (hash_password_bcrypt sample_bcrypt [] hello (pos default_bcrypt_cost) ≡ ok (codes "$2hi")) ↔ (
      (length hello ≤ 72)
      × (at_least (pos default_bcrypt_cost) (pos 4) ≡ true)
      × (at_least (pos 31) (pos default_bcrypt_cost) ≡ true)
      × (sample_bcrypt.generate [] hello default_bcrypt_cost ≡ ok (codes "$2hi"))
      × (verify_password_bcrypt sample_bcrypt hello (codes "$2hi") ≡ ok true))
hash_password_bcrypt_iff_example =
    hash_password_bcrypt_iff sample_bcrypt [] hello (codes "$2hi") (pos default_bcrypt_cost)

-- The length is tested before the cost.
long_input : hash_password_bcrypt sample_bcrypt [] (replicate 73 1) (pos 99) ≡ err input_too_long
unfolding hash_password_bcrypt
long_input = refl

costs :
    (hash_password_bcrypt sample_bcrypt [] hello (pos 3) ≡ err bad_cost)
    × (hash_password_bcrypt sample_bcrypt [] hello (pos 32) ≡ err bad_cost)
    × (hash_password_bcrypt sample_bcrypt [] hello (negsuc 0) ≡ err bad_cost)
unfolding hash_password_bcrypt
costs = (refl, refl, refl)
