-- ===== src/Wire/Base64/Shape.antt =====
-- The length of an encoding, the range of what is decoded, and the first character.
use crypt.Base.{
  ℕ, ◌+◌, ◌*◌, ◌/◌, ◌<◌, ◌≡◌, refl, arith, List, [], ◌∷◌, map, Option, none, some, All, length,
  Option-cases, inl, inr,
}
use crypt.Wire.Base64.{
  Alphabet, char_of, to_groups, encode, values, push_three, from_groups, groups_to_bytes, decode,
}

length-to_groups : (bytes : List ℕ) → length (to_groups bytes) ≡ (length bytes * 4 + 2) / 3
unfolding to_groups
length-to_groups [] = omega arith
length-to_groups (a ∷ []) = omega arith
length-to_groups (a ∷ b ∷ []) = omega arith
length-to_groups (a ∷ b ∷ c ∷ rest) = omega (arith, length-to_groups rest)

length-map {ℓ κ} :
    {A : Type ℓ} {B : Type κ} (f : A → B) (xs : List A) → length (map f xs) ≡ length xs
length-map f [] = refl
length-map f (x ∷ xs) = omega (arith, length-map f xs)

-- ceil(4 n / 3) characters for n bytes
pub length-encode :
    (e : Alphabet) (bytes : List ℕ) → length (encode e bytes) ≡ (length bytes * 4 + 2) / 3
unfolding encode
length-encode e bytes =
    omega (arith, length-map (char_of e) (to_groups bytes), length-to_groups bytes)

from_groups-bytes : (vs bytes : List ℕ) → from_groups vs ≡ some bytes → All (λ b. b < 256) bytes
unfolding from_groups push_three
from_groups-bytes [] bytes h = ground arith
from_groups-bytes (p ∷ []) bytes h = cc
from_groups-bytes (p ∷ q ∷ []) bytes h = ground arith
from_groups-bytes (p ∷ q ∷ r ∷ []) bytes h = ground arith
from_groups-bytes (p ∷ q ∷ r ∷ s ∷ rest) bytes h = elim (Option-cases (from_groups rest)) [
  | inl e ↦ cc
  | inr (rest', e) ↦ ground (arith, from_groups-bytes rest rest' e)
]

-- Whatever is decoded, the result consists of bytes.
pub decode-bytes :
    (e : Alphabet) (s bytes : List ℕ) → decode e s ≡ some bytes → All (λ b. b < 256) bytes
unfolding decode groups_to_bytes
decode-bytes e s bytes h = go (values e s) h
  where
    go : (o : Option (List ℕ)) → groups_to_bytes o ≡ some bytes → All (λ b. b < 256) bytes
    go none k = cc
    go (some vs) k = from_groups-bytes vs bytes k
