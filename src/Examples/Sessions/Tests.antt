-- ===== src/Examples/Sessions/Tests.antt =====
-- The theorem on sessions at concrete times, with the sample cipher.
use crypt.Base.{ℕ, ◌+◌, ◌≡◌, refl, [], leb, ltb, drop, some, if◌then◌else◌, arith}
use crypt.Base.Outcome.{ok, err, session_expired, session_in_future}
use crypt.Wire.{Bytes}
use crypt.Wire.Text.{codes}
use crypt.Cipher.Sample.{sample}
use crypt.Gcm.Sealer.{Sealer, new_sealer}
use crypt.Cipher.{new_gcm_32}
use crypt.TimeLock.Issue.{seconds}
use crypt.Examples.Json.{Json, ReadsBack}
use crypt.Examples.Sessions.{Session, session_at, issue_session, open_session}
use crypt.Examples.Sessions.Window.{open_session-issue_session}
use crypt.Samples.{key_32, hello, source}

-- Second 1000.
abbrev issued : ℕ
issued = 1_000_000_000_000

-- A printer that knows one session.
abbrev one_session : Json Session
one_session = record {
  marshal = λ s. some (codes "{}");
  unmarshal = λ text. some (session_at issued hello []);
}

abbrev one_session-ReadsBack : ReadsBack one_session (session_at issued hello [])
one_session-ReadsBack = record {
  text = codes "{}";
  printed = refl;
  read_back = refl;
  text-IsBytes = omega arith;
}

abbrev sealer : Sealer
sealer = record { gcm = key_32 }

sealer_made : new_sealer key_32 ≡ ok sealer
unfolding new_sealer
sealer_made = rw (new_gcm_32 key_32 refl) refl

open_session-issue_session_example :
    (token : Bytes) × (issue_session sample one_session sealer issued hello [] source
      ≡ (ok token, record source { content = drop 12 source.content }))
    × (open_session sample one_session sealer 2_000_000_000_000 token ≡ (
        if leb (seconds issued + 86_400) (seconds 2_000_000_000_000)
        then err session_expired
        else if ltb (seconds 2_000_000_000_000 + 30) (seconds issued)
        then err session_in_future
        else ok (session_at issued hello [])))
open_session-issue_session_example =
    open_session-issue_session sample one_session key_32 sealer hello [] issued 2_000_000_000_000
      source sealer_made refl one_session-ReadsBack (omega arith) (omega arith)
