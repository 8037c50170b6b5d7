-- ===== src/Vectors.antt =====
-- cmd/gen-vectors: the test vectors that the implementations share, computed from the standard
-- library without the functions of the package. The JSON encoder and the output are left out.
pub mod Aead
pub mod Hmac
pub mod Cbc
pub mod Agree
pub mod Blocks
pub mod Document
pub mod Tables
mod Tests
use crypt.Base.{ℕ, suc, zero, ◌-◌, ◌%◌, List, [], ◌∷◌, ◌++◌, length, replicate}
use crypt.Base.Outcome.{Result, ok, ◌>>=◌}
use crypt.Wire.{Bytes}

-- `repeatHex`
unfoldable pub repeat_hex : Bytes → ℕ → Bytes
repeat_hex two_char zero = []
repeat_hex two_char (suc n) = two_char ++ repeat_hex two_char n

-- The loop that writes a byte to every place from `i` on.
unfoldable pub fill_from : ℕ → ℕ → Bytes → Bytes
fill_from i b [] = []
fill_from zero b (x ∷ out) = b ∷ fill_from zero b out
fill_from (suc i) b (x ∷ out) = x ∷ fill_from i b out

-- `pkcs7Pad`: `make` and `copy`, and the loop.
unfoldable pub pkcs7_pad : Bytes → ℕ → Bytes
pkcs7_pad buf size =
    let pad_len = size - length buf % size in
    fill_from (length buf) (pad_len % 256) (buf ++ replicate pad_len 0)

-- The loop over the table of specs, which stops the program at the first error.
unfoldable pub for_each {ℓ κ} :
    {A : Type ℓ} {B : Type κ} → (A → Result B) → List A → Result (List B)
for_each vector_of [] = ok []
for_each vector_of (s ∷ specs) = do v ← vector_of s; vs ← for_each vector_of specs; ok (v ∷ vs)
