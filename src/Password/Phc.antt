-- ===== src/Password/Phc.antt =====
-- password.go: `formatPHC` and `parsePHC`.
use crypt.Base.{List, [], ◌∷◌, ◌++◌, Bool, Option, some, length, ◌==◌, ◌||◌, not, same}
use crypt.Base.Int.{ℤ, pos, negsuc}
use crypt.Base.Outcome.{Result, ok, err, guard, or_fail, ◌>>=◌, ◌>>◌, invalid_password_hash}
use crypt.Wire.{Bytes}
use crypt.Wire.Base64
use crypt.Wire.Text.{codes, split}
use crypt.Wire.Decimal.{format_uint}
use crypt.Wire.Scan as Scan
use crypt.Wire.Scan.{expect, scan_int, scan_uint}
use crypt.Password.{
  Argon2Params, argon_algo, argon_version_tag, argon_memory_kib, argon_time_cost, argon_parallel,
}

-- `v=19`
abbrev pub version_part : Bytes
version_part = codes "v=" ++ format_uint argon_version_tag

-- `m=65536,t=2,p=1`
abbrev pub params_part : Bytes
params_part =
    codes "m="
    ++ (format_uint argon_memory_kib
        ++ (codes ",t="
            ++ (format_uint argon_time_cost ++ (codes ",p=" ++ format_uint argon_parallel))))

-- `formatPHC`
unfoldable pub format_phc : Bytes → Bytes → Bytes
format_phc salt hash =
    b'$'
    ∷ (argon_algo
        ++ (b'$'
            ∷ (version_part
                ++ (b'$'
                    ∷ (params_part
                        ++ (b'$'
                            ∷ (Base64.encode Base64.std salt
                                ++ (b'$' ∷ Base64.encode Base64.std hash))))))))

-- What `parsePHC` returns.
pub record Phc : Type 0 where
  pub salt : Bytes
  pub hash : Bytes
  pub params : Argon2Params

-- `fmt.Sscanf(parts[2], "v=%d", &ver)`
unfoldable pub scan_version : Bytes → Option ℤ
scan_version s = Scan.◌>>=◌ (expect (codes "v=") s) λ t. Scan.◌>>=◌ (scan_int t) λ read. some read.0

-- `fmt.Sscanf(parts[3], "m=%d,t=%d,p=%d", &m, &t, &p)`
unfoldable pub scan_params : Bytes → Option Argon2Params
scan_params s = Scan.◌>>=◌ (expect (codes "m=") s) λ s1. Scan.◌>>=◌ (scan_uint 32 s1) λ m.
    Scan.◌>>=◌ (expect (codes ",t=") m.1) λ s2. Scan.◌>>=◌ (scan_uint 32 s2) λ t.
      Scan.◌>>=◌ (expect (codes ",p=") t.1) λ s3.
        Scan.◌>>=◌ (scan_uint 8 s3)
          λ p. some (record { memory_kib = m.0; time_cost = t.0; parallel = p.0 })

-- `ver != argonVersionTag`
abbrev pub is_version : ℤ → Bool
is_version (pos n) = n == argon_version_tag
is_version (negsuc n) = Bool.false

unfoldable pub parse_parts : List Bytes → Result Phc
parse_parts (p0 ∷ p1 ∷ p2 ∷ p3 ∷ p4 ∷ p5 ∷ []) = do
  guard (same p0 []) invalid_password_hash
  guard (same p1 argon_algo) invalid_password_hash
  version ← or_fail (scan_version p2) invalid_password_hash
  guard (is_version version) invalid_password_hash
  params ← or_fail (scan_params p3) invalid_password_hash
  salt ← or_fail (Base64.decode Base64.std p4) invalid_password_hash
  hash ← or_fail (Base64.decode Base64.std p5) invalid_password_hash
  guard (not (length salt == 0 || length hash == 0)) invalid_password_hash
  ok (record { salt = salt; hash = hash; params = params })
parse_parts _ = err invalid_password_hash

-- `parsePHC`
unfoldable pub parse_phc : Bytes → Result Phc
parse_phc s = parse_parts (split b'$' s)
