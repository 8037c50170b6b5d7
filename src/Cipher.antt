-- ===== src/Cipher.antt =====
-- The authenticated ciphers, which are not code of the repository: AES-GCM (crypto/aes and
-- crypto/cipher) and ChaCha20-Poly1305 (golang.org/x/crypto). A cipher is a record of two
-- operations and of what their documentation says of them, and the wrappers are given one.
pub mod Sample
use crypt.Base.{ℕ, ◌+◌, ◌≡◌, Bool, Option, none, some, ◌||◌, ◌==◌, length, if◌then◌else◌}
use crypt.Base.Outcome.{Result, ok, err, panic, cipher_setup}
use crypt.Wire.{Bytes, IsBytes}

-- `seal key nonce plaintext aad` is the ciphertext with the 16-byte tag behind it, and `open_`
-- verifies the tag and decrypts. Both are deterministic, so what opens is what `seal` makes.
pub record Aead : Type 0 where
  pub seal : Bytes → Bytes → Bytes → Bytes → Bytes
  pub open_ : Bytes → Bytes → Bytes → Bytes → Option Bytes
  pub open-seal :
      (key nonce plain aad : Bytes) → open_ key nonce (seal key nonce plain aad) aad ≡ some plain
  pub seal-open :
      (key nonce body aad plain : Bytes)
      → open_ key nonce body aad ≡ some plain
      → seal key nonce plain aad ≡ body
  pub length-seal :
      (key nonce plain aad : Bytes) → length (seal key nonce plain aad) ≡ length plain + 16
  pub seal-IsBytes :
      (key nonce plain aad : Bytes) → IsBytes plain → IsBytes (seal key nonce plain aad)

-- `aes.NewCipher` and `cipher.NewGCM`: an AES key has 16, 24 or 32 bytes. The cipher bound to a
-- key is the key.
pub new_gcm : Bytes → Result Bytes
new_gcm key =
    if length key == 16 || length key == 24 || length key == 32 then ok key else err cipher_setup

-- `chacha20poly1305.New`
pub new_chacha20 : Bytes → Result Bytes
new_chacha20 key = if length key == 32 then ok key else err cipher_setup

-- The methods of `cipher.AEAD`, which panic on a nonce of another length than 12.
pub seal_with : Aead → Bytes → Bytes → Bytes → Bytes → Result Bytes
seal_with c key nonce plain aad =
    if length nonce == 12 then ok (c.seal key nonce plain aad) else panic

pub open_with : Aead → Bytes → Bytes → Bytes → Bytes → Result (Option Bytes)
open_with c key nonce body aad =
    if length nonce == 12 then ok (c.open_ key nonce body aad) else panic

pub new_gcm_32 : (key : Bytes) → length key ≡ 32 → new_gcm key ≡ ok key
unfolding new_gcm
new_gcm_32 key h = rw h

pub new_chacha20_32 : (key : Bytes) → length key ≡ 32 → new_chacha20 key ≡ ok key
unfolding new_chacha20
new_chacha20_32 key h = rw h

pub seal_with_12 :
    (c : Aead) (key nonce plain aad : Bytes)
    → length nonce ≡ 12
    → seal_with c key nonce plain aad ≡ ok (c.seal key nonce plain aad)
unfolding seal_with
seal_with_12 c key nonce plain aad h = rw h

pub open_with_12 :
    (c : Aead) (key nonce body aad : Bytes)
    → length nonce ≡ 12
    → open_with c key nonce body aad ≡ ok (c.open_ key nonce body aad)
unfolding open_with
open_with_12 c key nonce body aad h = rw h
