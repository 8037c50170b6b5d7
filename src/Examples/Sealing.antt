-- ===== src/Examples/Sealing.antt =====
-- examples/chacha20_aead, examples/encrypt_field and examples/seal_with_aad: the programs.
pub mod Run
use crypt.Base.{◌-◌, Bool, true, false, List, [], ◌∷◌, ◌++◌, length}
use crypt.Base.Outcome.{Error, Result, ok, err, panic, slice, unsupported_version, tampered}
use crypt.Wire.{Bytes}
use crypt.Wire.Text.{codes}
use crypt.Entropy.{Drawing, draw}
use crypt.Cipher.{Aead}
use crypt.Format.{aead_key_size}
use crypt.Gcm.Seal.{seal}
use crypt.Gcm.Open.{open_token}
use crypt.Gcm.Sealer.{new_sealer, sealer_seal, sealer_open}
use crypt.ChaCha.Seal.{seal_chacha20}
use crypt.ChaCha.Open.{open_chacha20}
use crypt.Examples.Program.{
  Program, World, Shown, text, failure, flag, no_error, ◌>>=◌, ◌>>◌, lift, drawn, print,
  print_failure,
}

-- `if _, err := f(); errors.Is(err, crypt.ErrUnsupportedVersion) { fmt.Printf(err) }`
abbrev pub print_unsupported : Result Bytes → Program (Unit {0})
print_unsupported (err unsupported_version) = print (failure unsupported_version ∷ [])
print_unsupported panic = lift panic
print_unsupported m = lift (ok tt)

-- `main` of examples/chacha20_aead, with the ciphers of both versions.
unfoldable pub chacha20_main : Aead → Aead → Program (Unit {0})
chacha20_main c gcm = do
  key ← drawn (draw aead_key_size)
  ct ← drawn (seal_chacha20 c key (codes "hello via chacha20") (codes "ctx"))
  print (text ct ∷ [])
  pt ← lift (open_chacha20 c key ct (codes "ctx"))
  print (text pt ∷ [])
  print_unsupported (open_token gcm key ct (codes "ctx"))
  kept ← lift (slice 0 (length ct - 2) ct)
  print_failure (open_chacha20 c key (kept ++ codes "XX") (codes "ctx"))

-- `fakeRow`
pub record FakeRow : Type 0 where
  pub id : Bytes
  pub client_secret : Bytes

-- The row that `main` stores.
abbrev pub row_of : Bytes → FakeRow
row_of encrypted = record { id = codes "prtn_001"; client_secret = encrypted }

abbrev pub app_key : Bytes
app_key = codes "01234567890123456789012345678901"

-- `main` of examples/encrypt_field
unfoldable pub encrypt_field_main : Aead → Program (Unit {0})
encrypt_field_main gcm = do
  sealer ← lift (new_sealer app_key)
  encrypted ← drawn (sealer_seal gcm sealer (codes "sk_live_4242deadbeef") [])
  let row = row_of encrypted
  print (text row.id ∷ text row.client_secret ∷ [])
  decrypted ← lift (sealer_open gcm sealer row.client_secret [])
  print (text decrypted ∷ [])
  kept ← lift (slice 0 (length row.client_secret - 1) row.client_secret)
  print_failure (sealer_open gcm sealer (kept ++ codes "X") [])

-- `issueSession` of examples/seal_with_aad
unfoldable pub issue_session_for : Aead → Bytes → Bytes → Bytes → Drawing Bytes
issue_session_for gcm server_key user_id payload =
    seal gcm server_key payload (codes "user:" ++ user_id)

-- `openSession` of examples/seal_with_aad
unfoldable pub open_session_for : Aead → Bytes → Bytes → Bytes → Result Bytes
open_session_for gcm server_key user_id ciphertext =
    open_token gcm server_key ciphertext (codes "user:" ++ user_id)

-- The value and the error that `openSession` returns, as they are printed.
abbrev pub print_outcome : Result Bytes → Program (Unit {0})
print_outcome (ok pt) = print (text pt ∷ no_error ∷ [])
print_outcome (err e) = print (text [] ∷ failure e ∷ [])
print_outcome panic = lift panic

-- The error alone, and whether it is `ErrTampered`.
unfoldable pub refusal : Result Bytes → List Shown
refusal (err tampered) = failure tampered ∷ flag true ∷ []
refusal (err e) = failure e ∷ flag false ∷ []
refusal m = no_error ∷ flag false ∷ []

abbrev pub print_refusal : Result Bytes → Program (Unit {0})
print_refusal (ok pt) = print (refusal (ok pt))
print_refusal (err e) = print (refusal (err e))
print_refusal panic = lift panic

-- `if err != nil { panic(err) }`
abbrev pub or_panic : Result Bytes → Result Bytes
or_panic (ok b) = ok b
or_panic _ = panic

-- `main` of examples/seal_with_aad
unfoldable pub seal_with_aad_main : Aead → Program (Unit {0})
seal_with_aad_main gcm w =
    let (issued, random) =
      issue_session_for gcm app_key (codes "alice") (codes "{\"role\":\"admin\"}") w.random in
    (do
      token ← lift (or_panic issued)
      print (text token ∷ [])
      print_outcome (open_session_for gcm app_key (codes "alice") token)
      print_refusal (open_session_for gcm app_key (codes "bob") token))
      (record w { random = random })
