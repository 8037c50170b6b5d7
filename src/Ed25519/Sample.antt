-- ===== src/Ed25519/Sample.antt =====
-- A scheme for concrete runs that meets the laws and hides nothing.
use crypt.Base.{
  ℕ, ◌%◌, ◌≡◌, ◌∙◌, refl, [], ◌∷◌, ◌++◌, Bool, true, length, take, replicate, length-replicate,
  length-append, length-take, take-append, same, same_self, arith,
}
use crypt.Wire.{Bytes, IsBytes}
use crypt.Ed25519.{Scheme}

-- The public key is the seed, the private key the seed twice, and a signature two copies of the
-- seed, cut or filled to their lengths.
pub fit : ℕ → Bytes → Bytes
fit n s = take n (s ++ replicate n 0)

pub length-fit : (n : ℕ) (s : Bytes) → length (fit n s) ≡ n
unfolding fit
length-fit n s = omega (
  arith,
  length-take n (s ++ replicate n 0),
  length-append s (replicate n 0),
  length-replicate {A = ℕ} n 0,
)

-- Every number cut to a byte.
pub reduce : Bytes → Bytes
reduce [] = []
reduce (b ∷ bs) = b % 256 ∷ reduce bs

pub length-reduce : (bs : Bytes) → length (reduce bs) ≡ length bs
unfolding reduce
length-reduce [] = refl
length-reduce (b ∷ bs) = omega (arith, length-reduce bs)

pub reduce-IsBytes : (bs : Bytes) → IsBytes (reduce bs)
unfolding reduce
reduce-IsBytes [] = tt
reduce-IsBytes (b ∷ bs) = (omega arith, reduce-IsBytes bs)

abbrev pub sample_verify : Bytes → Bytes → Bytes → Bool
sample_verify pub_key text signature = same (reduce (fit 64 (fit 64 pub_key ++ text))) signature

pub sample_verify-sign :
    (seed text : Bytes)
    → length seed ≡ 32
    → sample_verify (fit 32 seed) text (reduce (fit 64 (fit 64 seed ++ text))) ≡ true
unfolding fit
sample_verify-sign seed text h =
    rw (take-append 32 seed (replicate 32 0) h) (same_self (reduce (fit 64 (fit 64 seed ++ text))))

unfoldable pub sample_scheme : Scheme
sample_scheme = record {
  public_of = fit 32;
  private_of = fit 64;
  sign = λ priv text. reduce (fit 64 (priv ++ text));
  verify = sample_verify;
  length-public_of = length-fit 32;
  length-private_of = length-fit 64;
  length-sign = λ priv text. length-reduce (fit 64 (priv ++ text)) ∙ length-fit 64 (priv ++ text);
  sign-IsBytes = λ priv text. reduce-IsBytes (fit 64 (priv ++ text));
  verify-sign = sample_verify-sign;
}
