-- ===== src/Wire/Base64/RoundTrip.antt =====
-- Decoding what was encoded.
use crypt.Base.{ℕ, ◌<◌, ◌≡◌, ◌≢◌, refl, arith, List, [], ◌∷◌, map, none, some, All}
use crypt.Wire.Base64.{
  Alphabet, url, std, char_of, value_of, to_groups, encode, push_group, values, push_three,
  from_groups, groups_to_bytes, decode,
}

-- The two characters are none of the letters and digits, and differ.
abbrev pub IsAlphabet : Alphabet → Type 0
IsAlphabet e =
    (value_of (record { char62 = 0; char63 = 0 }) e.char62 ≡ none)
    × (value_of (record { char62 = 0; char63 = 0 }) e.char63 ≡ none)
    × (e.char62 ≢ e.char63)

pub value_of-char_of :
    (e : Alphabet) (v : ℕ) → IsAlphabet e → v < 64 → value_of e (char_of e v) ≡ some v
unfolding value_of char_of
value_of-char_of e v h lt = ground arith

to_groups-small : (bytes : List ℕ) → All (λ b. b < 256) bytes → All (λ v. v < 64) (to_groups bytes)
unfolding to_groups
to_groups-small [] h = tt
to_groups-small (a ∷ []) h = omega arith
to_groups-small (a ∷ b ∷ []) h = omega arith
to_groups-small (a ∷ b ∷ c ∷ rest) (ha, (hb, (hc, h))) =
    (omega arith, (omega arith, (omega arith, (omega arith, to_groups-small rest h))))

from_groups-to_groups :
    (bytes : List ℕ) → All (λ b. b < 256) bytes → from_groups (to_groups bytes) ≡ some bytes
unfolding to_groups from_groups push_three
from_groups-to_groups [] h = refl
from_groups-to_groups (a ∷ []) h = ground arith
from_groups-to_groups (a ∷ b ∷ []) h = ground arith
from_groups-to_groups (a ∷ b ∷ c ∷ rest) h = ground (arith, from_groups-to_groups rest)

module _ (e : Alphabet) (fair : IsAlphabet e) where
  values-map : (vs : List ℕ) → All (λ v. v < 64) vs → values e (map (char_of e) vs) ≡ some vs
  unfolding values push_group
  values-map [] h = refl
  values-map (v ∷ vs) (hv, h) = ground (arith, value_of-char_of e v fair hv, values-map vs h)

  -- Decoding gives the bytes back.
  pub decode-encode :
      (bytes : List ℕ) → All (λ b. b < 256) bytes → decode e (encode e bytes) ≡ some bytes
  unfolding decode encode groups_to_bytes
  decode-encode bytes h =
      rw (values-map (to_groups bytes) (to_groups-small bytes h)) (from_groups-to_groups bytes h)

pub url-IsAlphabet : IsAlphabet url
unfolding value_of
url-IsAlphabet = (refl, refl, omega arith)

pub std-IsAlphabet : IsAlphabet std
unfolding value_of
std-IsAlphabet = (refl, refl, omega arith)

char_of-byte : (e : Alphabet) (v : ℕ) → e.char62 < 256 → e.char63 < 256 → char_of e v < 256
unfolding char_of
char_of-byte e v h k = ground arith

map-bytes :
    (e : Alphabet) (vs : List ℕ)
    → e.char62 < 256
    → e.char63 < 256
    → All (λ b. b < 256) (map (char_of e) vs)
map-bytes e [] h k = tt
map-bytes e (v ∷ vs) h k = (char_of-byte e v h k, map-bytes e vs h k)

-- A token consists of bytes.
pub encode-url-bytes : (bytes : List ℕ) → All (λ b. b < 256) (encode url bytes)
unfolding encode
encode-url-bytes bytes = map-bytes url (to_groups bytes) (omega arith) (omega arith)

std_chars_lack : (vs : List ℕ) → All (λ c. c ≢ b'$') (map (char_of std) vs)
unfolding char_of
std_chars_lack [] = tt
std_chars_lack (v ∷ vs) = (ground arith, std_chars_lack vs)

-- No character of a standard encoding is the separator of the hash format.
pub encode-std-lacks : (bytes : List ℕ) → All (λ c. c ≢ b'$') (encode std bytes)
unfolding encode
encode-std-lacks bytes = std_chars_lack (to_groups bytes)
