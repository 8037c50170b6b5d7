-- ===== src/Entropy.antt =====
-- random.go: the source of random bytes that the package variable `randReader` holds, as a state
-- that each operation passes on, and the helpers that draw from it. Also the readers and writers
-- of package io that stream.go is given.
pub mod Laws
mod Tests
use crypt.Base.{
  ℕ, ◌+◌, ◌-◌, ◌≤◌, ◌≡◌, refl, List, [], ◌++◌, Bool, true, false, not, ltb, leb, length, take, drop,
  if◌then◌else◌, ◌<◌, arith,
}
use crypt.Base.Outcome.{Error, Result, ok, err, panic, random_failure, bad_length}
use crypt.Base.Int.{ℤ, is_positive, magnitude}
use crypt.Wire.{Bytes}
use crypt.Wire.Base64
use crypt.Wire.Hex

-- An `io.Reader`: the bytes that it still delivers, and whether it then fails by an error that is
-- neither `io.EOF` nor `io.ErrUnexpectedEOF`.
pub record Reader : Type 0 where
  pub content : Bytes
  pub faulty : Bool

-- What `io.ReadFull` returns: a full buffer, the bytes before the end of the input
-- (`io.EOF`, `io.ErrUnexpectedEOF`), or another error.
pub data Filled : Type 0 where
  full : Bytes → Filled
  short : Bytes → Filled
  fault : Filled

-- `io.ReadFull(r, buf)` for a buffer of `n` bytes, with the reader that is left.
unfoldable pub read_full : ℕ → Reader → Filled × Reader
read_full n r =
    if leb n (length r.content)
    then (full (take n r.content), record r { content = drop n r.content })
    else (if r.faulty then fault else short r.content, record r { content = [] })

-- A function that draws from `randReader` and may fail; the bytes drawn stay drawn.
abbrev pub Drawing {ℓ} : Type ℓ → Type ℓ
Drawing A = Reader → Result A × Reader

abbrev pub and_then {ℓ κ} :
    {A : Type ℓ} {B : Type κ} → (A → Drawing B) → Result A × Reader → Result B × Reader
and_then f (ok a, r) = f a r
and_then f (err e, r) = (err e, r)
and_then f (panic, r) = (panic, r)

infixl 5 ◌>>=◌ ◌>>◌
abbrev pub ◌>>=◌ {ℓ κ} : {A : Type ℓ} {B : Type κ} → Drawing A → (A → Drawing B) → Drawing B
◌>>=◌ m f r = and_then f (m r)

abbrev pub ◌>>◌ {ℓ} : {B : Type ℓ} → Drawing (Unit {0}) → Drawing B → Drawing B
◌>>◌ m k r = and_then (λ _. k) (m r)

-- A step that draws nothing.
abbrev pub lift {ℓ} : {A : Type ℓ} → Result A → Drawing A
lift m r = (m, r)

abbrev pub filled_or : Error → Filled × Reader → Result Bytes × Reader
filled_or e (full b, r) = (ok b, r)
filled_or e (short b, r) = (err e, r)
filled_or e (fault, r) = (err e, r)

-- `buf := make([]byte, n); io.ReadFull(randReader, buf)`
unfoldable pub draw : ℕ → Drawing Bytes
unfolding read_full
draw n r = filled_or random_failure (read_full n r)

-- `RandomBytes`
unfoldable pub random_bytes : ℤ → Drawing Bytes
random_bytes n = if is_positive n then draw (magnitude n) else lift (err bad_length)

-- `RandomToken`
pub random_token : ℤ → Drawing Bytes
random_token n = do buf ← random_bytes n; lift (ok (Base64.encode Base64.url buf))

-- `RandomHex`
pub random_hex : ℤ → Drawing Bytes
random_hex n = do buf ← random_bytes n; lift (ok (Hex.encode buf))
