-- ===== src/Wire.antt =====
-- Bytes on the wire: what aead.go, kms.go, stream.go and timelock.go use of encoding/binary, and
-- the child modules for encoding/base64 and encoding/hex. A Go string is the list of its bytes.
pub mod Base64
pub mod Hex
pub mod Decimal
pub mod Text
pub mod Scan
use crypt.Base.{
  ℕ, ◌+◌, ◌*◌, ◌/◌, ◌%◌, ◌^◌, ◌≤◌, ◌<◌, ◌≡◌, refl, arith, List, [], ◌∷◌, ◌++◌, All, length,
}
use crypt.Base.Outcome.{Result, ok, panic}

abbrev pub IsByte : ℕ → Type 0
IsByte b = b < 256

abbrev pub Bytes : Type 0
Bytes = List ℕ

abbrev pub IsBytes : Bytes → Type 0
IsBytes = All IsByte

-- `binary.BigEndian.PutUint32`, for a value below 2 ^ 32
unfoldable pub put_u32 : ℕ → Bytes
put_u32 v = v / 2 ^ 24 % 256 ∷ v / 2 ^ 16 % 256 ∷ v / 2 ^ 8 % 256 ∷ v % 256 ∷ []

-- `binary.BigEndian.Uint32`; a shorter slice panics
unfoldable pub u32 : Bytes → Result ℕ
u32 (a ∷ b ∷ c ∷ d ∷ _) = ok (a * 2 ^ 24 + b * 2 ^ 16 + c * 2 ^ 8 + d)
u32 _ = panic

-- `binary.BigEndian.PutUint64` and `binary.BigEndian.Uint64`
unfoldable pub put_u64 : ℕ → Bytes
put_u64 v = put_u32 (v / 2 ^ 32) ++ put_u32 (v % 2 ^ 32)

pub u64 : Bytes → Result ℕ
u64 (a ∷ b ∷ c ∷ d ∷ e ∷ f ∷ g ∷ h ∷ _) =
    ok (
      (a * 2 ^ 24 + b * 2 ^ 16 + c * 2 ^ 8 + d) * 2 ^ 32
      + (e * 2 ^ 24 + f * 2 ^ 16 + g * 2 ^ 8 + h))
u64 _ = panic

pub length-put_u32 : (v : ℕ) → length (put_u32 v) ≡ 4
unfolding put_u32
length-put_u32 v = refl

pub length-put_u64 : (v : ℕ) → length (put_u64 v) ≡ 8
unfolding put_u64 put_u32
length-put_u64 v = refl

pub put_u32-IsBytes : (v : ℕ) → IsBytes (put_u32 v)
unfolding put_u32
put_u32-IsBytes v = omega arith

pub put_u64-IsBytes : (v : ℕ) → IsBytes (put_u64 v)
unfolding put_u64 put_u32
put_u64-IsBytes v = omega arith

pub u32-put_u32 : (v : ℕ) (rest : Bytes) → v < 2 ^ 32 → u32 (put_u32 v ++ rest) ≡ ok v
unfolding u32 put_u32
u32-put_u32 v rest h = ground arith

pub u64-put_u64 : (v : ℕ) (rest : Bytes) → v < 2 ^ 64 → u64 (put_u64 v ++ rest) ≡ ok v
unfolding u64 put_u64 put_u32
u64-put_u64 v rest h = ground arith

-- The same, with nothing behind the field.
pub u32-put_u32_only : (v : ℕ) → v < 2 ^ 32 → u32 (put_u32 v) ≡ ok v
unfolding u32 put_u32
u32-put_u32_only v h = ground arith

pub u64-put_u64_only : (v : ℕ) → v < 2 ^ 64 → u64 (put_u64 v) ≡ ok v
unfolding u64 put_u64 put_u32
u64-put_u64_only v h = ground arith

pub u64_total : (s : Bytes) → 8 ≤ length s → (v : ℕ) × (u64 s ≡ ok v)
unfolding u64
u64_total (a ∷ b ∷ c ∷ d ∷ e ∷ f ∷ g ∷ h ∷ rest) long = (_, refl)
u64_total s long = absurd (omega arith)

pub u32_total : (s : Bytes) → 4 ≤ length s → (v : ℕ) × (u32 s ≡ ok v)
unfolding u32
u32_total (a ∷ b ∷ c ∷ d ∷ rest) long = (_, refl)
u32_total s long = absurd (omega arith)

pub u32_small : (s : Bytes) (v : ℕ) → IsBytes s → u32 s ≡ ok v → v < 2 ^ 32
unfolding u32
u32_small (a ∷ b ∷ c ∷ d ∷ rest) v h e = ground arith
u32_small s v h e = cc
