-- ===== src/Wire/Decimal/RoundTrip.antt =====
-- What is printed in decimal is read back.
use crypt.Base.{
  ℕ, zero, suc, ◌+◌, ◌/◌, ◌%◌, ◌^◌, ◌≤◌, ◌<◌, ◌≡◌, ◌≢◌, refl, sym, ap, ◌∙◌, true, Bool-cases, inl,
  inr, ◌⊎◌, [], ◌∷◌, some, All, lt→ltb, ◌==◌, ==-false, ne→==, arith,
}
use crypt.Base.Int.{ℤ, pos, negsuc}
use crypt.Wire.{Bytes}
use crypt.Wire.Decimal.{
  put_digits, format_uint, format_int, value, all_digits, parse_digits, parse_int,
}
use mathlib.Core.Path.{subst}

abbrev pub IsDigit : ℕ → Type 0
IsDigit c = (b'0' ≤ c) × (c ≤ b'9')

-- Reading the digits of `n` and what stands behind them is reading the latter behind `n`.
value-put_digits :
    (fuel n : ℕ) (out : Bytes) → n ≤ fuel → value 0 (put_digits fuel n out) ≡ value n out
unfolding put_digits value
value-put_digits zero n out h = ground arith
value-put_digits (suc fuel) n out h = elim (Bool-cases (n == 0)) [
  | inl e ↦ ground (arith, e)
  | inr e ↦ rw e (
      value-put_digits fuel (n / 10) ((b'0' + n % 10) ∷ out) (ground (arith, ==-false n 0 e))
      ∙ ap (λ m. value m out) (omega arith))
]

put_digits-digits :
    (fuel n : ℕ) (out : Bytes) → All IsDigit out → All IsDigit (put_digits fuel n out)
unfolding put_digits
put_digits-digits zero n out h = h
put_digits-digits (suc fuel) n out h = elim (Bool-cases (n == 0)) [
  | inl e ↦ rw e h
  | inr e ↦ rw e (put_digits-digits fuel (n / 10) ((b'0' + n % 10) ∷ out) (omega arith, h))
]

-- The values of an int64.
abbrev pub Int64 : ℤ → Type 0
Int64 (pos n) = n < 2 ^ 63
Int64 (negsuc n) = n < 2 ^ 63

-- A decimal is digits, one at least.
abbrev pub IsDecimal : ℕ → Bytes → Type 0
IsDecimal n s =
    (c : ℕ) × (rest : Bytes) × (s ≡ c ∷ rest) × All IsDigit (c ∷ rest) × (value 0 (c ∷ rest) ≡ n)

digits-cons :
    (fuel n : ℕ) (c : ℕ) (out : Bytes)
    → (d : ℕ) × (rest : Bytes) × (put_digits fuel n (c ∷ out) ≡ d ∷ rest)
unfolding put_digits
digits-cons zero n c out = (c, out, refl)
digits-cons (suc fuel) n c out = elim (Bool-cases (n == 0)) [
  | inl e ↦ (c, out, rw e refl)
  | inr e ↦
      let (d, rest, shape) = digits-cons fuel (n / 10) (b'0' + n % 10) (c ∷ out) in
      (d, rest, rw e shape)
]

pub format_uint-IsDecimal : (n : ℕ) → IsDecimal n (format_uint n)
unfolding format_uint put_digits
format_uint-IsDecimal zero = (b'0', [], refl, omega arith, unfold value in refl)
format_uint-IsDecimal (suc n) =
    let (d, rest, shape) = digits-cons n (suc n / 10) (b'0' + suc n % 10) [] in
    let whole : put_digits (suc n) (suc n) [] ≡ d ∷ rest = rw (ne→== (suc n) 0 (cc)) shape in
    (
      d,
      rest,
      rw (ne→== (suc n) 0 (cc)) shape,
      subst (All IsDigit) whole (put_digits-digits (suc n) (suc n) [] tt),
      ap (value 0) (sym whole)
          ∙ value-put_digits (suc n) (suc n) [] (omega arith)
          ∙ unfold value in refl,
    )

all_digits-IsDigit : (s : Bytes) → All IsDigit s → all_digits s ≡ true
unfolding all_digits
all_digits-IsDigit [] h = refl
all_digits-IsDigit (c ∷ s) (hc, h) = ground (arith, all_digits-IsDigit s h)

pub parse_digits-IsDecimal : (n : ℕ) (s : Bytes) → IsDecimal n s → parse_digits s ≡ some n
unfolding parse_digits
parse_digits-IsDecimal n s (c, rest, shape, digits, exact) =
    rw shape (rw (all_digits-IsDigit (c ∷ rest) digits) (ap some exact))

-- Every text of digits lacks every other character.
pub digits_lack :
    (sep : ℕ) (s : Bytes) → (sep < b'0') ⊎ (b'9' < sep) → All IsDigit s → All (λ c. c ≢ sep) s
digits_lack sep [] h _ = tt
digits_lack sep (c ∷ s) h (hc, hs) = (ground arith, digits_lack sep s h hs)

-- Every int64 is read back from its decimal print.
pub parse_int-format_int : (z : ℤ) → Int64 z → parse_int (format_int z) ≡ some z
unfolding parse_int format_int
parse_int-format_int (pos n) h =
    let (c, rest, shape, (hc, digits), exact) = format_uint-IsDecimal n in
    rw
      (
        shape,
        ne→== c b'-' (omega arith),
        ne→== c b'+' (omega arith),
        parse_digits-IsDecimal n (c ∷ rest) (c, rest, refl, (hc, digits), exact),
        lt→ltb n (2 ^ 63) h,
      )
      refl
parse_int-format_int (negsuc n) h =
    rw
      (
        parse_digits-IsDecimal (n + 1) (format_uint (n + 1)) (format_uint-IsDecimal (n + 1)),
        lt→ltb (n + 1) (2 ^ 63 + 1) (omega arith),
        ne→== (n + 1) 0 (omega arith),
      )
      (ap (λ m. some (negsuc m)) (omega arith))
