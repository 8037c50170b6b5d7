-- ===== src/Password/Tests.antt =====
-- The theorems on password.go at concrete inputs, with the sample key function.
use crypt.Base.{◌≡◌, ◌↔◌, ◌≢◌, refl, ◌==◌, ◌||◌, true, drop, take, same, arith}
use crypt.Base.Outcome.{ok, err, panic, invalid_password_hash}
use crypt.Wire.{Bytes}
use crypt.Wire.Text.{codes, split}
use crypt.Wire.Base64
use crypt.Wire.Decimal.{value, all_digits, parse_digits, parse_uint, parse_int}
use crypt.Wire.Scan.{expect, skip_space, span_digits, scan_uint, signed_run, scan_int}
use crypt.Password.Phc.{Phc, parse_phc, parse_parts, scan_version, scan_params}
use crypt.Password.Hash.{hash_password}
use crypt.Password.Verify.{verify_password}
use crypt.Password.RoundTrip.{key_of, verify_password-hash_password}
use crypt.Password.Panics.{verify_password_panics_iff}
use crypt.Password.Sample.{sample_argon2}
use crypt.Samples.{hello, context, source}

verify_password-hash_password_example :
    (stored : Bytes) × (hash_password sample_argon2 hello source
      ≡ (ok stored, record source { content = drop 16 source.content }))
    × (verify_password sample_argon2 hello stored ≡ ok true)
    × (verify_password sample_argon2 context stored
        ≡ ok (
            same
              (key_of sample_argon2 context (take 16 source.content))
              (key_of sample_argon2 hello (take 16 source.content))))
verify_password-hash_password_example =
    verify_password-hash_password sample_argon2 hello context source (omega arith) (omega arith)

abbrev no_rounds : Bytes
no_rounds = codes "$argon2id$v=19$m=65536,t=0,p=1$AAAA$AAAA"

verify_password_panics_iff_example : (verify_password sample_argon2 hello no_rounds ≡ panic) ↔ (
    (phc : Phc) × (parse_phc no_rounds ≡ ok phc)
    × ((phc.params.time_cost == 0 || phc.params.parallel == 0) ≡ true))
verify_password_panics_iff_example = verify_password_panics_iff sample_argon2 hello no_rounds

-- The stored hash is accepted, so that the call panics.
no_rounds_panics : verify_password sample_argon2 hello no_rounds ≡ panic
unfolding verify_password parse_phc parse_parts same split scan_version scan_params expect
    skip_space span_digits scan_uint signed_run scan_int value all_digits parse_digits parse_uint
    parse_int Base64.decode Base64.values Base64.value_of Base64.push_group Base64.groups_to_bytes
    Base64.from_groups Base64.push_three
no_rounds_panics = refl

-- What follows the last number of a part is not looked at.
trailing_text :
    parse_phc (codes "$argon2id$v=19xyz$m=8,t=1,p=1,q=9$AAAA$AAAA") ≢ err invalid_password_hash
unfolding parse_phc parse_parts same split scan_version scan_params expect skip_space span_digits
    scan_uint signed_run scan_int value all_digits parse_digits parse_uint parse_int Base64.decode
    Base64.values Base64.value_of Base64.push_group Base64.groups_to_bytes Base64.from_groups
    Base64.push_three
trailing_text = cc
