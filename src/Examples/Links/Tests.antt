-- ===== src/Examples/Links/Tests.antt =====
-- A CSRF token at concrete times, with the sample cipher.
use crypt.Base.{ℕ, ◌-◌, ◌≡◌, refl, some, leb, same, drop, if◌then◌else◌, arith}
use crypt.Base.Int.{pos, negsuc}
use crypt.Base.Outcome.{ok, err, foreign_session, session_expired}
use crypt.Wire.{Bytes}
use crypt.Wire.Text.{codes}
use crypt.Cipher.{new_gcm_32}
use crypt.Cipher.Sample.{sample}
use crypt.Gcm.Sealer.{Sealer, new_sealer}
use crypt.TimeLock.Issue.{seconds}
use crypt.Examples.Json.{Json, ReadsBack}
use crypt.Examples.Links.{CsrfPayload, unix_after, issue_csrf, verify_csrf}
use crypt.Examples.Links.Window.{verify_csrf-issue_csrf}
use crypt.Samples.{key_32, hello, context, source}

-- Second 1000.
abbrev issued : ℕ
issued = 1_000_000_000_000

abbrev hello_payload : CsrfPayload
hello_payload = record { session_id = hello; issued_at = pos (seconds issued) }

-- A printer that knows one payload.
abbrev one_payload : Json CsrfPayload
one_payload = record { marshal = λ p. some (codes "{}"); unmarshal = λ text. some hello_payload }

abbrev hello-ReadsBack : ReadsBack one_payload hello_payload
hello-ReadsBack = record {
  text = codes "{}";
  printed = refl;
  read_back = refl;
  text-IsBytes = omega arith;
}

abbrev csrf_sealer : Sealer
csrf_sealer = record { gcm = key_32 }

csrf_sealer_made : new_sealer key_32 ≡ ok csrf_sealer
unfolding new_sealer
csrf_sealer_made = rw (new_gcm_32 key_32 refl) refl

old_token_refused :
    (token : Bytes) × (issue_csrf sample one_payload csrf_sealer issued hello source
      ≡ (ok token, record source { content = drop 12 source.content }))
    × (verify_csrf sample one_payload csrf_sealer 2_000_000_000_000 token context ≡ (
        if same hello context
        then (if leb (seconds 2_000_000_000_000 - seconds issued) 900
            then ok tt
            else err session_expired)
        else err foreign_session))
old_token_refused =
    verify_csrf-issue_csrf sample key_32 csrf_sealer source csrf_sealer_made refl (omega arith)
      (omega arith) one_payload hello context issued 2_000_000_000_000 hello-ReadsBack (omega arith)
      (omega arith)

-- A time to live may be negative, and seconds are rounded down.
before_the_epoch : unix_after 0 (negsuc 0) ≡ negsuc 0
before_the_epoch = refl
