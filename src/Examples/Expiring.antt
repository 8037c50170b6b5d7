-- ===== src/Examples/Expiring.antt =====
-- examples/time_locked_token: the program, and the expiry that it packs by hand. A time is the
-- nanoseconds since 1970, and the program reads the clock five times.
pub mod Run
use crypt.Base.{ℕ, zero, suc, ◌+◌, ◌-◌, ◌*◌, ◌/◌, ◌%◌, ◌^◌, leb, [], ◌∷◌, ◌++◌, if◌then◌else◌}
use crypt.Base.Int.{ℤ, pos, negsuc, word}
use crypt.Base.Outcome.{Result, ok, err, panic, expired}
use crypt.Wire.{Bytes}
use crypt.Wire.Text.{codes}
use crypt.Cipher.{Aead}
use crypt.Gcm.Seal.{seal}
use crypt.TimeLock.Issue.{issue_token}
use crypt.TimeLock.Verify.{verify_token}
use crypt.Examples.Program.{
  Program, text, failure, ◌>>=◌, ◌>>◌, lift, drawn, drawn_ignoring, print, print_failure,
}

abbrev pub purpose_password_reset : Bytes
purpose_password_reset = codes "pwreset-v1"

abbrev pub purpose_email_verify : Bytes
purpose_email_verify = codes "email-verify-v1"

-- time.Hour
abbrev pub hour : ℕ
hour = 3600 * 1_000_000_000

abbrev pub reset_token_ttl : ℤ
reset_token_ttl = pos hour

-- `time.Now().Add(offset).Unix()`; whole seconds, rounded down.
unfoldable pub unix_from : ℕ → ℤ → ℤ
unix_from now (pos d) = pos ((now + d) / 1_000_000_000)
unix_from now (negsuc d) =
    if leb (d + 1) now
    then pos ((now - (d + 1)) / 1_000_000_000)
    else negsuc ((d - now) / 1_000_000_000)

-- The loop, whose turn `i` writes `out[7-i]`: the bytes are written from the last one on.
unfoldable pub pack_from : ℕ → ℕ → ℕ → Bytes → Bytes
pack_from zero i expiry out = out
pack_from (suc left) i expiry out = pack_from left (i + 1) expiry (expiry / 2 ^ (8 * i) % 256 ∷ out)

-- `packExpiryBytes`
unfoldable pub pack_expiry_bytes : ℕ → ℤ → Bytes
pack_expiry_bytes now offset = pack_from 8 0 (word (unix_from now offset)) []

-- `if _, err := f(); errors.Is(err, crypt.ErrExpired) { fmt.Printf(err) }`
unfoldable pub print_expired : Result Bytes → Program (Unit {0})
print_expired (err expired) = print (failure expired ∷ [])
print_expired panic = lift panic
print_expired m = lift (ok tt)

abbrev pub program_key : Bytes
program_key = codes "01234567890123456789012345678901"

-- `main`
unfoldable pub expiring_main : Aead → ℕ → ℕ → ℕ → ℕ → ℕ → Program (Unit {0})
expiring_main c issued verified replayed packed checked = do
  tok ← drawn (
      issue_token c issued program_key (codes "user_id=usr_42") reset_token_ttl
        purpose_password_reset)
  print (text (codes "https://app.example.com/reset?t=" ++ tok) ∷ [])
  payload ← lift (verify_token c verified program_key tok purpose_password_reset)
  print (text payload ∷ [])
  print_failure (verify_token c replayed program_key tok purpose_email_verify)
  let expired_payload = pack_expiry_bytes packed (negsuc (hour - 1)) ++ codes "stale"
  stale ← drawn_ignoring [] (seal c program_key expired_payload purpose_password_reset)
  print_expired (verify_token c checked program_key stale purpose_password_reset)
