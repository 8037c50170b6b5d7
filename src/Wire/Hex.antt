-- ===== src/Wire/Hex.antt =====
-- What the package uses of encoding/hex: lower-case digits out, either case in.
use crypt.Base.{
  ℕ, ◌+◌, ◌-◌, ◌*◌, ◌/◌, ◌%◌, ◌<◌, ◌&&◌, ◌≡◌, ◌≢◌, refl, arith, List, [], ◌∷◌, Option, none, some,
  ltb, leb, if◌then◌else◌, All, length,
}
use mathlib.Core.Path.{subst}

unfoldable pub digit_of : ℕ → ℕ
digit_of v = if ltb v 10 then b'0' + v else b'a' + (v - 10)

unfoldable pub nibble_of : ℕ → Option ℕ
nibble_of c =
    if leb b'0' c && leb c b'9'
    then some (c - b'0')
    else if leb b'a' c && leb c b'f'
    then some (c - b'a' + 10)
    else if leb b'A' c && leb c b'F'
    then some (c - b'A' + 10)
    else none

-- `EncodeToString`
unfoldable pub encode : List ℕ → List ℕ
encode [] = []
encode (b ∷ rest) = digit_of (b / 16) ∷ digit_of (b % 16) ∷ encode rest

unfoldable pub join_nibbles : Option ℕ → Option ℕ → Option (List ℕ) → Option (List ℕ)
join_nibbles (some hi) (some lo) (some rest) = some ((hi * 16 + lo) ∷ rest)
join_nibbles _ _ _ = none

-- `DecodeString`: a character that is no digit, or an odd number of digits, is an error.
unfoldable pub decode : List ℕ → Option (List ℕ)
unfolding join_nibbles
decode [] = some []
decode (c ∷ []) = none
decode (c ∷ d ∷ rest) = join_nibbles (nibble_of c) (nibble_of d) (decode rest)

unfoldable pub push_pair : Option ℕ → Option ℕ → List ℕ → List ℕ
push_pair (some hi) (some lo) rest = (hi * 16 + lo) ∷ rest
push_pair _ _ _ = []

-- The bytes that `DecodeString` returns, behind which it may have stopped at an error.
unfoldable pub decode_prefix : List ℕ → List ℕ
unfolding push_pair
decode_prefix [] = []
decode_prefix (c ∷ []) = []
decode_prefix (c ∷ d ∷ rest) = push_pair (nibble_of c) (nibble_of d) (decode_prefix rest)

nibble_of-digit_of : (v : ℕ) → v < 16 → nibble_of (digit_of v) ≡ some v
unfolding nibble_of digit_of
nibble_of-digit_of v h = ground arith

-- Decoding gives the bytes back.
pub decode-encode : (bytes : List ℕ) → All (λ b. b < 256) bytes → decode (encode bytes) ≡ some bytes
unfolding decode encode
decode-encode [] h = refl
decode-encode (b ∷ rest) (hb, h) = ground (
  arith,
  nibble_of-digit_of (b / 16) (omega arith),
  nibble_of-digit_of (b % 16) (omega arith),
  decode-encode rest h,
)

pub length-encode : (bytes : List ℕ) → length (encode bytes) ≡ length bytes * 2
unfolding encode
length-encode [] = omega arith
length-encode (b ∷ rest) = omega (arith, length-encode rest)

-- No digit is a comma.
pub encode-lacks : (bytes : List ℕ) → All (λ b. b < 256) bytes → All (λ c. c ≢ b',') (encode bytes)
unfolding encode digit_of
encode-lacks [] _ = tt
encode-lacks (b ∷ rest) (hb, h) = (ground arith, (ground arith, encode-lacks rest h))

nibble_small : (c v : ℕ) → nibble_of c ≡ some v → v < 16
unfolding nibble_of
nibble_small c v h = ground arith

join_nibbles-bytes :
    (hi lo : Option ℕ) (rest : Option (List ℕ)) (bytes : List ℕ)
    → ((v : ℕ) → hi ≡ some v → v < 16)
    → ((v : ℕ) → lo ≡ some v → v < 16)
    → ((tail : List ℕ) → rest ≡ some tail → All (λ b. b < 256) tail)
    → join_nibbles hi lo rest ≡ some bytes
    → All (λ b. b < 256) bytes
unfolding join_nibbles
join_nibbles-bytes none _ _ _ _ _ _ e = cc
join_nibbles-bytes (some hi) none _ _ _ _ _ e = cc
join_nibbles-bytes (some hi) (some lo) none _ _ _ _ e = cc
join_nibbles-bytes (some hi) (some lo) (some tail) bytes p q t e =
    let joined : (hi * 16 + lo) ∷ tail ≡ bytes = cc in
    let small_hi = p hi refl in
    let small_lo = q lo refl in subst (All (λ b. b < 256)) joined (omega arith, t tail refl)

-- What is decoded consists of bytes.
pub decode-bytes : (s bytes : List ℕ) → decode s ≡ some bytes → All (λ b. b < 256) bytes
unfolding decode
decode-bytes [] bytes h = let e : [] ≡ bytes = cc in subst (All (λ b. b < 256)) e tt
decode-bytes (c ∷ []) bytes h = cc
decode-bytes (c ∷ d ∷ rest) bytes h =
    join_nibbles-bytes (nibble_of c) (nibble_of d) (decode rest) bytes (nibble_small c)
      (nibble_small d) (decode-bytes rest) h

push_pair-join :
    (hi lo : Option ℕ) (rest : Option (List ℕ)) (before bytes : List ℕ)
    → ((tail : List ℕ) → rest ≡ some tail → before ≡ tail)
    → join_nibbles hi lo rest ≡ some bytes
    → push_pair hi lo before ≡ bytes
unfolding join_nibbles push_pair
push_pair-join none _ _ _ _ _ e = cc
push_pair-join (some hi) none _ _ _ _ e = cc
push_pair-join (some hi) (some lo) none _ _ _ e = cc
push_pair-join (some hi) (some lo) (some tail) before bytes t e = let same_tail = t tail refl in cc

-- Without an error the bytes returned are all.
pub decode_prefix-decode : (s bytes : List ℕ) → decode s ≡ some bytes → decode_prefix s ≡ bytes
unfolding decode decode_prefix
decode_prefix-decode [] bytes h = cc
decode_prefix-decode (c ∷ []) bytes h = cc
decode_prefix-decode (c ∷ d ∷ rest) bytes h =
    push_pair-join (nibble_of c) (nibble_of d) (decode rest) (decode_prefix rest) bytes
      (decode_prefix-decode rest) h
