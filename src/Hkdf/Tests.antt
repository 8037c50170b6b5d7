-- ===== src/Hkdf/Tests.antt =====
-- The theorem on hkdf.go at a concrete input.
use crypt.Base.{◌≡◌, ◌↔◌, ◌≤◌, true, [], length, take}
use crypt.Base.Int.{pos, is_positive, magnitude}
use crypt.Base.Outcome.{ok}
use crypt.Hkdf.Sample.{sample_hkdf}
use crypt.Hkdf.{derive_key, derive_key_iff}
use crypt.Samples.{key_32, other_key_32, hello}

other_key_derived : (derive_key sample_hkdf key_32 [] hello (pos 32) ≡ ok other_key_32) ↔ (
    (is_positive (pos 32) ≡ true)
    × (1 ≤ length key_32)
    × (magnitude (pos 32) ≤ 8160)
    × (other_key_32 ≡ take (magnitude (pos 32)) (sample_hkdf.output key_32 [] hello)))
other_key_derived = derive_key_iff sample_hkdf key_32 [] hello other_key_32 (pos 32)
