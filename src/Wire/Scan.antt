-- ===== src/Wire/Scan.antt =====
-- `fmt.Sscanf` as password.go calls it: characters that must match, and the verb %d into an `int`,
-- a `uint32` and a `uint8`. What follows the last item of the format is not looked at.
use crypt.Base.{ℕ, ◌^◌, ◌&&◌, ◌||◌, Bool, [], ◌∷◌, Option, none, some, leb, ◌==◌, if◌then◌else◌}
use crypt.Base.Int.{ℤ}
use crypt.Wire.{Bytes}
use crypt.Wire.Decimal.{is_digit, parse_int, parse_uint, below}

infixl 5 ◌>>=◌
abbrev pub ◌>>=◌ {ℓ κ} : {A : Type ℓ} {B : Type κ} → Option A → (A → Option B) → Option B
none >>= f = none
some a >>= f = f a

-- White space of one byte; a line end is an error.
abbrev pub is_space : ℕ → Bool
is_space a = a == b' ' || (leb 9 a && leb a 13)

-- U+0085 and U+00A0
abbrev pub is_space2 : ℕ → ℕ → Bool
is_space2 a b = a == 0xC2 && (b == 0x85 || b == 0xA0)

-- U+1680, U+2000 to U+200A, U+2028, U+2029, U+202F, U+205F and U+3000
abbrev pub is_space3 : ℕ → ℕ → ℕ → Bool
is_space3 a b c =
    (a == 0xE1 && (b == 0x9A && c == 0x80))
    || ((a == 0xE2
          && (b == 0x80 && (leb 0x80 c && leb c 0x8A || (c == 0xA8 || (c == 0xA9 || c == 0xAF)))))
        || ((a == 0xE2 && (b == 0x81 && c == 0x9F)) || (a == 0xE3 && (b == 0x80 && c == 0x80))))

-- `SkipSpace`: white space is skipped, in UTF-8; at a line end the scan fails.
unfoldable pub skip_space : Bytes → Option Bytes
skip_space [] = some []
skip_space (a ∷ []) = if a == b'\n' then none else if is_space a then some [] else some (a ∷ [])
skip_space (a ∷ b ∷ []) =
    let after1 = skip_space (b ∷ []) in
    if a == b'\n'
    then none
    else if is_space a
    then after1
    else if is_space2 a b
    then some []
    else some (a ∷ b ∷ [])
skip_space (a ∷ b ∷ c ∷ s) =
    let after1 = skip_space (b ∷ c ∷ s) in
    let after2 = skip_space (c ∷ s) in
    let after3 = skip_space s in
    if a == b'\n'
    then none
    else if is_space a
    then after1
    else if is_space2 a b
    then after2
    else if is_space3 a b c
    then after3
    else some (a ∷ b ∷ c ∷ s)

-- The characters of a format outside its verbs.
unfoldable pub expect : Bytes → Bytes → Option Bytes
expect [] s = some s
expect (p ∷ literal) [] = none
expect (p ∷ literal) (c ∷ s) = if c == p then expect literal s else none

-- The longest run of digits, and the rest.
unfoldable pub span_digits : Bytes → Bytes × Bytes
span_digits [] = ([], [])
span_digits (c ∷ s) =
    let rest = span_digits s in if is_digit c then (c ∷ rest.0, rest.1) else ([], c ∷ s)

abbrev pub with_rest {ℓ} : {A : Type ℓ} → Bytes → Option A → Option (A × Bytes)
with_rest rest none = none
with_rest rest (some a) = some (a, rest)

-- `%d` into an unsigned integer of `bits` bits.
unfoldable pub scan_uint : ℕ → Bytes → Option (ℕ × Bytes)
scan_uint bits s = do
  t ← skip_space s
  with_rest (span_digits t).1 (below (2 ^ bits) (parse_uint (span_digits t).0))

abbrev pub is_sign : ℕ → Bool
is_sign c = c == b'+' || c == b'-'

-- A sign is part of the number.
unfoldable pub signed_run : Bytes → Bytes × Bytes
signed_run [] = ([], [])
signed_run (c ∷ s) =
    if is_sign c then (c ∷ (span_digits s).0, (span_digits s).1) else span_digits (c ∷ s)

-- `%d` into an `int`.
unfoldable pub scan_int : Bytes → Option (ℤ × Bytes)
scan_int s = do t ← skip_space s; with_rest (signed_run t).1 (parse_int (signed_run t).0)
