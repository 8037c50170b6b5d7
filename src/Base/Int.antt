-- ===== src/Base/Int.antt =====
-- Go's `int` and `int64` arguments over the native numbers: `negsuc n` is -(n + 1).
use Prim.Native.Nat.{ℕ, ◌+◌, ◌*◌, ◌%◌, ◌-◌, ◌^◌, ◌≤◌, ◌<◌}
use mathlib.Core.Path.{◌≡◌}
use native.Mathlib.Omega.{arith}
use mathlib.Core.Bool.{Bool, true, false}
use crypt.Base.Tests.{leb, ltb, if◌then◌else◌}

pub data ℤ : Type 0 where
  pos : ℕ → ℤ
  negsuc : ℕ → ℤ

-- `n > 0`
abbrev pub is_positive : ℤ → Bool
is_positive (pos n) = ltb 0 n
is_positive (negsuc n) = false

-- `a >= b`
abbrev pub at_least : ℤ → ℤ → Bool
at_least (pos a) (pos b) = leb b a
at_least (pos a) (negsuc b) = true
at_least (negsuc a) (pos b) = false
at_least (negsuc a) (negsuc b) = leb a b

-- The value of an argument that was found not to be negative.
abbrev pub magnitude : ℤ → ℕ
magnitude (pos n) = n
magnitude (negsuc n) = 0

-- `int64(w)` of a `uint64`
abbrev pub int64 : ℕ → ℤ
int64 w = if ltb w (2 ^ 63) then pos w else negsuc (2 ^ 64 - w - 1)

-- `uint64(a)` of an `int64`
abbrev pub word : ℤ → ℕ
word (pos n) = n % 2 ^ 64
word (negsuc n) = 2 ^ 64 - 1 - n % 2 ^ 64

-- Arithmetic on `int64`, which wraps around.
abbrev pub sub_int64 : ℤ → ℤ → ℤ
sub_int64 a b = int64 ((word a + (2 ^ 64 - word b)) % 2 ^ 64)

abbrev pub neg_int64 : ℤ → ℤ
neg_int64 a = int64 ((2 ^ 64 - word a) % 2 ^ 64)

abbrev pub mul_int64 : ℤ → ℤ → ℤ
mul_int64 a b = int64 (word a * word b % 2 ^ 64)

pub positive-magnitude : (n : ℤ) → is_positive n ≡ true → 1 ≤ magnitude n
positive-magnitude (pos n) h = ground (arith, h)
positive-magnitude (negsuc n) h = cc

-- Within the range nothing wraps around.
pub sub_int64-ge : (a b : ℕ) → b ≤ a → a < 2 ^ 63 → sub_int64 (pos a) (pos b) ≡ pos (a - b)
sub_int64-ge a b h ha = ground arith

pub sub_int64-lt : (a b : ℕ) → a < b → b < 2 ^ 63 → sub_int64 (pos a) (pos b) ≡ negsuc (b - a - 1)
sub_int64-lt a b h hb = ground arith

pub neg_int64-negsuc : (n : ℕ) → n + 1 < 2 ^ 63 → neg_int64 (negsuc n) ≡ pos (n + 1)
neg_int64-negsuc n h = ground arith

pub mul_int64-seconds :
    (d : ℕ) → d < 9_000_000_000 → mul_int64 (pos d) (pos 1_000_000_000) ≡ pos (d * 1_000_000_000)
mul_int64-seconds d h = ground arith
