-- ===== src/Stream/Fields.antt =====
-- Reads from an input that does not fail, and the fields of a chunk.
use crypt.Base.{
  ℕ, ◌+◌, ◌/◌, ◌%◌, ◌^◌, ◌<◌, ◌≡◌, refl, [], ◌∷◌, ◌++◌, Bool, true, false, none, leb, le→leb,
  lt→leb, length, take, replicate, arith, length-append, length-take, take-append, drop-append,
}
use crypt.Base.Outcome.{ok}
use crypt.Wire.{Bytes, put_u32, u32, length-put_u32}
use crypt.Entropy.{Reader, full, short, read_full}
use crypt.Stream.{Ends, make_stream_nonce}
use crypt.Stream.Seal.{len_field}
use crypt.Stream.Open.{len_of}

-- An input that ends without an error, and an output that never fails.
abbrev pub at : Reader → Bytes → Bytes → Ends
at random input written = record {
  random = random;
  input = record { content = input; faulty = false };
  output = record { written = written; room = none };
}

pub read_full-append :
    (n : ℕ) (xs ys : Bytes)
    → length xs ≡ n
    → read_full n (record { content = xs ++ ys; faulty = false })
      ≡ (full xs, record { content = ys; faulty = false })
unfolding read_full
read_full-append n xs ys h =
    rw
      (
        le→leb n (length (xs ++ ys)) (omega (arith, length-append xs ys)),
        take-append n xs ys h,
        drop-append n xs ys h,
      )
      refl

pub read_full_short :
    (n : ℕ) (xs : Bytes)
    → length xs < n
    → read_full n (record { content = xs; faulty = false })
      ≡ (short xs, record { content = []; faulty = false })
unfolding read_full
read_full_short n xs h = rw (lt→leb n (length xs) h) refl

pub length-make_stream_nonce :
    (prefix : Bytes) (counter : ℕ) → length (make_stream_nonce prefix counter) ≡ 12
unfolding make_stream_nonce
length-make_stream_nonce prefix counter = omega (
  arith,
  length-append (take 8 (prefix ++ replicate 8 0)) (put_u32 counter),
  length-take 8 (prefix ++ replicate 8 0),
  length-append prefix (replicate 8 0),
  length-put_u32 counter,
)

pub length-len_field : (n : ℕ) (last : Bool) → length (len_field n last) ≡ 4
unfolding len_field put_u32
length-len_field n true = refl
length-len_field n false = refl

-- The field in front of a chunk gives the length and the mark back.
pub len_of-len_field :
    (n : ℕ) (last : Bool)
    → n < 2 ^ 31
    → (top : ℕ) × (rest : Bytes) × (len_field n last ≡ top ∷ rest)
      × (length rest ≡ 3)
      × (leb 128 top ≡ last)
      × (len_of top (top ∷ rest) ≡ ok n)
unfolding len_field len_of put_u32 u32
len_of-len_field n true h = (
  n / 2 ^ 24 + 128,
  n / 2 ^ 16 % 256 ∷ n / 2 ^ 8 % 256 ∷ n % 256 ∷ [],
  ground arith,
  refl,
  ground arith,
  ground arith,
)
len_of-len_field n false h = (
  n / 2 ^ 24,
  n / 2 ^ 16 % 256 ∷ n / 2 ^ 8 % 256 ∷ n % 256 ∷ [],
  ground arith,
  refl,
  ground arith,
  ground arith,
)
