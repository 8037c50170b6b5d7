-- ===== src/Examples/Rotation.antt =====
-- examples/key_rotation: a reader that tries an active key and the retired ones in turn.
pub mod Keys
mod Tests
use crypt.Base.{List, [], ◌∷◌, Option, none, some}
use crypt.Base.Outcome.{Error, Result, ok, err, panic, no_keys_configured}
use crypt.Wire.{Bytes}
use crypt.Cipher.{Aead}
use crypt.Gcm.Open.{open_token}

-- `MultiKeyReader`
pub record MultiKeyReader : Type 0 where
  pub keys : List Bytes

-- `NewMultiKeyReader`
abbrev pub new_multi_key_reader : Bytes → List Bytes → MultiKeyReader
new_multi_key_reader active retired = record { keys = active ∷ retired }

-- What follows the loop.
abbrev pub last_error : Option Error → Error
last_error none = no_keys_configured
last_error (some e) = e

-- What follows a call of `Open` in the loop, given the rest of the loop for an error.
abbrev pub or_next : Result Bytes → (Error → Result Bytes) → Result Bytes
or_next (ok plain) next = ok plain
or_next (err e) next = next e
or_next panic next = panic

-- The loop, with the error of the key before.
unfoldable pub try_keys : Aead → List Bytes → Option Error → Bytes → Bytes → Result Bytes
try_keys gcm [] last ciphertext aad = err (last_error last)
try_keys gcm (k ∷ ks) last ciphertext aad =
    or_next (open_token gcm k ciphertext aad) λ e. try_keys gcm ks (some e) ciphertext aad

-- `MultiKeyReader.Open`
unfoldable pub reader_open : Aead → MultiKeyReader → Bytes → Bytes → Result Bytes
reader_open gcm m ciphertext aad = try_keys gcm m.keys none ciphertext aad
