-- ===== src/Auto.antt =====
-- auto.go: `OpenAuto`, which opens a token of `Seal` or a text of `EncryptCBC`.
pub mod HexText
pub mod Detect
mod Tests
use crypt.Base.{
  ℕ, Bool, true, false, List, [], ◌∷◌, Option, none, some, length, drop, ltb, ◌==◌, ◌%◌, ◌&&◌,
  if◌then◌else◌,
}
use crypt.Base.Outcome.{Result, ok, err, panic, unknown_format}
use crypt.Wire.{Bytes}
use crypt.Wire.Base64
use crypt.Wire.Hex
use crypt.Cipher.{Aead}
use crypt.Format.{version_aead_v1, aead_min_size}
use crypt.Cbc.{Mode}
use crypt.Gcm.Open.{open_token}
use crypt.Cbc.Decrypt.{decrypt_cbc}

-- `raw[0] == version`, where `raw` is not empty.
abbrev pub starts_with : ℕ → Bytes → Bool
starts_with version [] = false
starts_with version (b ∷ bs) = b == version

abbrev pub looks_like_aead : Option Bytes → Bool
looks_like_aead none = false
looks_like_aead (some raw) =
    if ltb (length raw) aead_min_size then false else starts_with version_aead_v1 raw

-- `isLikelyAEAD`
unfoldable pub is_likely_aead : Bytes → Bool
is_likely_aead ciphertext = looks_like_aead (Base64.decode Base64.url ciphertext)

abbrev pub looks_like_cbc : Option Bytes → Bool
looks_like_cbc none = false
looks_like_cbc (some raw) =
    if ltb (length raw) 16
    then false
    else length (drop 16 raw) % 16 == 0 && ltb 0 (length (drop 16 raw))

-- `isLikelyCBC`
unfoldable pub is_likely_cbc : Bytes → Bool
is_likely_cbc ciphertext = looks_like_cbc (Hex.decode ciphertext)

-- `if pt, err := …; err == nil { return pt, nil }`, and what follows it.
abbrev pub or_else : Result Bytes → Result Bytes → Result Bytes
or_else (ok plain) next = ok plain
or_else (err e) next = next
or_else panic next = panic

-- `OpenAuto`
unfoldable pub open_auto : Aead → Mode → Bytes → Bytes → Bytes → Result Bytes
open_auto gcm mode key ciphertext aad =
    let as_cbc =
      if is_likely_cbc ciphertext
      then or_else (decrypt_cbc mode key ciphertext) (err unknown_format)
      else err unknown_format in
    if is_likely_aead ciphertext then or_else (open_token gcm key ciphertext aad) as_cbc else as_cbc
