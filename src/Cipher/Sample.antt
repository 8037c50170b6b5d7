-- ===== src/Cipher/Sample.antt =====
-- A cipher for concrete runs that meets the laws: it hides nothing, and its tag is a checksum of
-- the key, the nonce, the plaintext and the additional data.
use crypt.Base.{
  ℕ, ◌+◌, ◌-◌, ◌*◌, ◌%◌, ◌≡◌, refl, [], ◌∷◌, ◌++◌, Option, none, some, arith, length, take,
  length-append, take-append, same, same_self, same→eq, if◌then◌else◌, All-append, Bool-cases, inl,
  inr,
}
use crypt.Wire.{Bytes, IsByte, IsBytes}
use crypt.Cipher.{Aead}

checksum : ℕ → Bytes → ℕ
checksum acc [] = acc
checksum acc (b ∷ bs) = checksum ((acc * 31 + b + 1) % 65521) bs

tag : Bytes → Bytes → Bytes → Bytes → Bytes
unfolding checksum
tag key nonce plain aad =
    let sum = checksum (checksum (checksum (checksum 1 key) nonce) plain) aad in
    sum % 256 ∷ 0 ∷ 0 ∷ 0 ∷ 0 ∷ 0 ∷ 0 ∷ 0 ∷ 0 ∷ 0 ∷ 0 ∷ 0 ∷ 0 ∷ 0 ∷ 0 ∷ 0 ∷ []

pub sample_seal : Bytes → Bytes → Bytes → Bytes → Bytes
unfolding tag
sample_seal key nonce plain aad = plain ++ tag key nonce plain aad

pub sample_open : Bytes → Bytes → Bytes → Bytes → Option Bytes
unfolding sample_seal same
sample_open key nonce body aad =
    let plain = take (length body - 16) body in
    if same (sample_seal key nonce plain aad) body then some plain else none

sample_body :
    (key nonce plain aad : Bytes)
    → take (length (sample_seal key nonce plain aad) - 16) (sample_seal key nonce plain aad) ≡ plain
unfolding sample_seal
sample_body key nonce plain aad =
    take-append _ plain (tag key nonce plain aad)
      (omega (arith, length-append plain (tag key nonce plain aad)))

pub sample_open-seal :
    (key nonce plain aad : Bytes)
    → sample_open key nonce (sample_seal key nonce plain aad) aad ≡ some plain
unfolding sample_open
sample_open-seal key nonce plain aad =
    rw (sample_body key nonce plain aad, same_self (sample_seal key nonce plain aad)) refl

pub sample_seal-open :
    (key nonce body aad plain : Bytes)
    → sample_open key nonce body aad ≡ some plain
    → sample_seal key nonce plain aad ≡ body
unfolding sample_open
sample_seal-open key nonce body aad plain h =
    let guess : Bytes = take (length body - 16) body in
    elim (Bool-cases (same (sample_seal key nonce guess aad) body)) [
      | inl e ↦ cc (same→eq (sample_seal key nonce guess aad) body e)
      | inr e ↦ cc
    ]

pub sample_length :
    (key nonce plain aad : Bytes) → length (sample_seal key nonce plain aad) ≡ length plain + 16
unfolding sample_seal
sample_length key nonce plain aad = length-append plain (tag key nonce plain aad)

pub sample_IsBytes :
    (key nonce plain aad : Bytes) → IsBytes plain → IsBytes (sample_seal key nonce plain aad)
unfolding sample_seal
sample_IsBytes key nonce plain aad h =
    All-append IsByte plain (tag key nonce plain aad) h (omega arith)

-- Its run-time behaviour is opened by `unfolding sample`.
unfoldable pub sample : Aead
unfolding sample_open sample_seal
sample = record {
  seal = sample_seal;
  open_ = sample_open;
  open-seal = sample_open-seal;
  seal-open = sample_seal-open;
  length-seal = sample_length;
  seal-IsBytes = sample_IsBytes;
}
