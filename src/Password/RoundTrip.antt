-- ===== src/Password/RoundTrip.antt =====
-- What `formatPHC` prints `parsePHC` reads, and `VerifyPassword` checks what `HashPassword` returns.
use crypt.Base.{
  ◌≤◌, ◌≡◌, refl, ap, ◌∙◌, [], ◌∷◌, ◌++◌, true, some, length, ne→==, same, same_self, take, drop,
  All-take, length-take, arith,
}
use crypt.Base.Int.{pos}
use crypt.Base.Outcome.{ok}
use crypt.Wire.{Bytes, IsByte, IsBytes}
use crypt.Wire.Base64
use crypt.Wire.Text.{split, split-part, split_last, Lacks}
use crypt.Wire.Decimal.{
  format_uint, put_digits, value, all_digits, parse_digits, parse_uint, parse_int,
}
use crypt.Wire.Scan.{expect, skip_space, span_digits, scan_uint, signed_run, scan_int}
use crypt.Entropy.{Reader}
use crypt.Entropy.Laws.{draw-enough}
use crypt.Password.{Argon2, Argon2Params, argon_algo}
use crypt.Password.Phc.{
  version_part, params_part, format_phc, scan_version, scan_params, parse_parts, parse_phc,
}
use crypt.Password.Hash.{hash_password}
use crypt.Password.Verify.{verify_password}

abbrev pub default_params : Argon2Params
default_params = record { memory_kib = 65536; time_cost = 2; parallel = 1 }

scan_version-version_part : scan_version version_part ≡ some (pos 19)
unfolding scan_version scan_int skip_space expect signed_run span_digits parse_int parse_digits
    all_digits value format_uint put_digits
scan_version-version_part = refl

scan_params-params_part : scan_params params_part ≡ some default_params
unfolding scan_params scan_uint skip_space expect span_digits parse_uint parse_digits all_digits
    value format_uint put_digits
scan_params-params_part = refl

version_part-Lacks : Lacks b'$' version_part
unfolding format_uint put_digits
version_part-Lacks = omega arith

params_part-Lacks : Lacks b'$' params_part
unfolding format_uint put_digits
params_part-Lacks = omega arith

split-format_phc :
    (salt hash : Bytes)
    → split b'$' (format_phc salt hash)
      ≡ []
        ∷ argon_algo
        ∷ version_part
        ∷ params_part
        ∷ Base64.encode Base64.std salt
        ∷ Base64.encode Base64.std hash
        ∷ []
unfolding format_phc
split-format_phc salt hash =
    let salt_text : Bytes = Base64.encode Base64.std salt in
    let hash_text : Bytes = Base64.encode Base64.std hash in
    let s4 : Bytes = salt_text ++ (b'$' ∷ hash_text) in
    let s3 : Bytes = params_part ++ (b'$' ∷ s4) in
    let s2 : Bytes = version_part ++ (b'$' ∷ s3) in
    split-part b'$' [] (argon_algo ++ (b'$' ∷ s2)) tt
    ∙ ap (λ t. [] ∷ t)
        (split-part b'$' argon_algo s2 (omega arith)
          ∙ ap (λ t. argon_algo ∷ t)
              (split-part b'$' version_part s3 version_part-Lacks
                ∙ ap (λ t. version_part ∷ t)
                    (split-part b'$' params_part s4 params_part-Lacks
                      ∙ ap (λ t. params_part ∷ t)
                          (split-part b'$' salt_text hash_text
                              (Base64.RoundTrip.encode-std-lacks salt)
                            ∙ ap (λ t. salt_text ∷ t)
                                (split_last b'$' hash_text
                                  (Base64.RoundTrip.encode-std-lacks hash))))))

-- `parsePHC` of what `formatPHC` prints is the salt, the hash and the parameters of the package,
-- for a salt and a hash that are not empty.
pub parse_phc-format_phc :
    (salt hash : Bytes)
    → IsBytes salt
    → IsBytes hash
    → 1 ≤ length salt
    → 1 ≤ length hash
    → parse_phc (format_phc salt hash)
      ≡ ok (record { salt = salt; hash = hash; params = default_params })
unfolding parse_phc parse_parts same
parse_phc-format_phc salt hash hs hh long_salt long_hash =
    rw
      (
        split-format_phc salt hash,
        scan_version-version_part,
        scan_params-params_part,
        Base64.RoundTrip.decode-encode Base64.std Base64.RoundTrip.std-IsAlphabet salt hs,
        Base64.RoundTrip.decode-encode Base64.std Base64.RoundTrip.std-IsAlphabet hash hh,
        ne→== (length salt) 0 (λ (e : length salt ≡ 0). omega arith),
        ne→== (length hash) 0 (λ (e : length hash ≡ 0). omega arith),
      )
      refl

module _ (argon2 : Argon2) where
  -- The key that the package's parameters give.
  abbrev pub key_of : Bytes → Bytes → Bytes
  key_of password salt = argon2.id_key password salt 2 65536 1 32

  -- The text of a password under the salt that the source gives.
  abbrev pub stored_text : Bytes → Reader → Bytes
  stored_text password r = format_phc (take 16 r.content) (key_of password (take 16 r.content))

  pub hash_password_lem :
      (password : Bytes) (r : Reader)
      → 16 ≤ length r.content
      → hash_password argon2 password r
        ≡ (ok (stored_text password r), record r { content = drop 16 r.content })
  unfolding hash_password
  hash_password_lem password r enough = rw (draw-enough 16 r enough) refl

  pub verify_password-stored_text :
      (password candidate : Bytes) (r : Reader)
      → IsBytes r.content
      → 16 ≤ length r.content
      → verify_password argon2 candidate (stored_text password r)
        ≡ ok (same (key_of candidate (take 16 r.content)) (key_of password (take 16 r.content)))
  unfolding verify_password
  verify_password-stored_text password candidate r hr enough =
      let salt : Bytes = take 16 r.content in
      let size = argon2.length-id_key password salt 2 65536 1 32 in
      rw
        (
          parse_phc-format_phc salt (key_of password salt) (All-take IsByte 16 r.content hr)
              (argon2.id_key-IsBytes password salt 2 65536 1 32)
              (omega (arith, length-take 16 r.content)) (omega (arith, size)),
          size,
        )
        refl

  -- With 16 bytes in the source, `HashPassword` returns a text and uses 16 bytes of the source up;
  -- `VerifyPassword` answers the password by true, and any candidate by whether Argon2id gives the
  -- candidate and the password the same key under the salt.
  pub verify_password-hash_password :
      (password candidate : Bytes) (r : Reader)
      → IsBytes r.content
      → 16 ≤ length r.content
      → (stored : Bytes) × (hash_password argon2 password r
          ≡ (ok stored, record r { content = drop 16 r.content }))
        × (verify_password argon2 password stored ≡ ok true)
        × (verify_password argon2 candidate stored
            ≡ ok
                (same (key_of candidate (take 16 r.content)) (key_of password (take 16 r.content))))
  verify_password-hash_password password candidate r hr enough = (
    stored_text password r,
    hash_password_lem password r enough,
    verify_password-stored_text password password r hr enough
        ∙ ap ok (same_self (key_of password (take 16 r.content))),
    verify_password-stored_text password candidate r hr enough,
  )
