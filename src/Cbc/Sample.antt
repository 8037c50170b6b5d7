-- ===== src/Cbc/Sample.antt =====
-- A mode for concrete runs that meets the laws: it hides nothing, and inverts every byte.
use crypt.Base.{ℕ, suc, ◌-◌, ◌≡◌, refl, [], ◌∷◌, length, ltb, if◌then◌else◌, arith, ap}
use crypt.Wire.{Bytes, IsBytes}
use crypt.Cbc.{Mode}

invert : ℕ → ℕ
invert b = if ltb b 256 then 255 - b else b

pub inverted : Bytes → Bytes → Bytes → Bytes
unfolding invert
inverted key iv [] = []
inverted key iv (b ∷ bs) = invert b ∷ inverted key iv bs

pub inverted_twice : (key iv bs : Bytes) → inverted key iv (inverted key iv bs) ≡ bs
unfolding inverted
inverted_twice key iv [] = refl
inverted_twice key iv (b ∷ bs) = ground (arith, inverted_twice key iv bs)

pub length-inverted : (key iv bs : Bytes) → length (inverted key iv bs) ≡ length bs
unfolding inverted
length-inverted key iv [] = refl
length-inverted key iv (b ∷ bs) = ap (λ (n : ℕ). suc n) (length-inverted key iv bs)

pub inverted-IsBytes : (key iv bs : Bytes) → IsBytes bs → IsBytes (inverted key iv bs)
unfolding inverted
inverted-IsBytes key iv [] h = tt
inverted-IsBytes key iv (b ∷ bs) (hb, h) = (ground arith, inverted-IsBytes key iv bs h)

unfoldable pub sample_mode : Mode
sample_mode = record {
  encrypt = inverted;
  decrypt = inverted;
  decrypt-encrypt = inverted_twice;
  encrypt-decrypt = inverted_twice;
  length-encrypt = length-inverted;
  encrypt-IsBytes = inverted-IsBytes;
}
