-- ===== src/Wire/Base64.antt =====
-- What the package uses of encoding/base64: `RawURLEncoding` (tokens) and `RawStdEncoding`
-- (password hashes). Both leave out the padding and are not strict: the decoder skips line ends
-- and ignores the unused low bits of the last character.
pub mod RoundTrip
pub mod Shape
pub mod Spelling
use crypt.Base.{
  ℕ, ◌+◌, ◌-◌, ◌*◌, ◌/◌, ◌%◌, ◌^◌, ◌<◌, ◌||◌, ◌&&◌, Bool, List, [], ◌∷◌, map, Option, none, some,
  ltb, leb, ◌==◌, if◌then◌else◌,
}

-- The two characters in which the alphabets differ, for the values 62 and 63.
pub record Alphabet : Type 0 where
  pub char62 : ℕ
  pub char63 : ℕ

abbrev pub url : Alphabet
url = record { char62 = b'-'; char63 = b'_' }

abbrev pub std : Alphabet
std = record { char62 = b'+'; char63 = b'/' }

pub char_of : Alphabet → ℕ → ℕ
char_of e v =
    if ltb v 26
    then b'A' + v
    else if ltb v 52
    then b'a' + (v - 26)
    else if ltb v 62
    then b'0' + (v - 52)
    else if v == 62
    then e.char62
    else e.char63

-- The decode map.
unfoldable pub value_of : Alphabet → ℕ → Option ℕ
value_of e c =
    if leb b'A' c && leb c b'Z'
    then some (c - b'A')
    else if leb b'a' c && leb c b'z'
    then some (c - b'a' + 26)
    else if leb b'0' c && leb c b'9'
    then some (c - b'0' + 52)
    else if c == e.char62
    then some 62
    else if c == e.char63
    then some 63
    else none

-- Three bytes are four groups of six bits; one byte left over is two groups and two are three.
pub to_groups : List ℕ → List ℕ
to_groups [] = []
to_groups (a ∷ []) = a / 4 ∷ a % 4 * 16 ∷ []
to_groups (a ∷ b ∷ []) = a / 4 ∷ (a % 4 * 16 + b / 16) ∷ b % 16 * 4 ∷ []
to_groups (a ∷ b ∷ c ∷ rest) =
    a / 4 ∷ (a % 4 * 16 + b / 16) ∷ (b % 16 * 4 + c / 64) ∷ c % 64 ∷ to_groups rest

-- `EncodeToString`
pub encode : Alphabet → List ℕ → List ℕ
encode e bytes = map (char_of e) (to_groups bytes)

pub is_line_end : ℕ → Bool
is_line_end c = c == b'\n' || c == b'\r'

unfoldable pub push_group : ℕ → Option (List ℕ) → Option (List ℕ)
push_group v none = none
push_group v (some vs) = some (v ∷ vs)

-- The values of the characters, line ends skipped; a character of no value is an error.
unfoldable pub values : Alphabet → List ℕ → Option (List ℕ)
unfolding push_group
values e [] = some []
values e (c ∷ s) =
    let rest = values e s in
    elim (value_of e c) [ some v ↦ push_group v rest | none ↦ if is_line_end c then rest else none ]

unfoldable pub push_three : ℕ → ℕ → ℕ → Option (List ℕ) → Option (List ℕ)
push_three a b c none = none
push_three a b c (some bytes) = some (a ∷ b ∷ c ∷ bytes)

-- A single character left over is an error.
unfoldable pub from_groups : List ℕ → Option (List ℕ)
unfolding push_three
from_groups [] = some []
from_groups (p ∷ []) = none
from_groups (p ∷ q ∷ []) = some ((p * 4 + q / 16) % 256 ∷ [])
from_groups (p ∷ q ∷ r ∷ []) = some ((p * 4 + q / 16) % 256 ∷ (q * 16 + r / 4) % 256 ∷ [])
from_groups (p ∷ q ∷ r ∷ s ∷ rest) =
    push_three ((p * 4 + q / 16) % 256) ((q * 16 + r / 4) % 256) ((r * 64 + s) % 256)
      (from_groups rest)

unfoldable pub groups_to_bytes : Option (List ℕ) → Option (List ℕ)
groups_to_bytes none = none
groups_to_bytes (some vs) = from_groups vs

-- `DecodeString`
unfoldable pub decode : Alphabet → List ℕ → Option (List ℕ)
unfolding groups_to_bytes
decode e s = groups_to_bytes (values e s)
