-- ===== src/Examples/Sessions/Window.antt =====
-- When a session can be opened.
use crypt.Base.{ℕ, ◌+◌, ◌≤◌, ◌≡◌, refl, List, leb, ltb, length, drop, if◌then◌else◌, arith}
use crypt.Base.Outcome.{ok, err, session_expired, session_in_future}
use crypt.Wire.{Bytes, IsBytes}
use crypt.Entropy.{Reader}
use crypt.Cipher.{Aead}
use crypt.Gcm.Sealer.{Sealer, new_sealer}
use crypt.Gcm.RoundTrip.{sealer_open-sealer_seal}
use crypt.TimeLock.Issue.{seconds}
use crypt.Examples.Json.{Json, ReadsBack}
use crypt.Examples.Sessions.{Session, session_at, issue_session, open_session, session_aad}

-- With a sealer for a key of 32 bytes, 12 bytes in the source, and a session that JSON reads back,
-- `IssueSession` returns a token, and `OpenSession` of that token answers by the session from 30
-- seconds before the issue until 24 hours after it, by the error on the expiry from then on, and
-- by the error on the future before; times are compared in whole seconds.
pub open_session-issue_session :
    (gcm : Aead) (json : Json Session) (key : Bytes) (sealer : Sealer) (user_id : Bytes)
    (scopes : List Bytes) (issued now : ℕ) (r : Reader)
    → new_sealer key ≡ ok sealer
    → length key ≡ 32
    → ReadsBack json (session_at issued user_id scopes)
    → IsBytes r.content
    → 12 ≤ length r.content
    → (token : Bytes) × (issue_session gcm json sealer issued user_id scopes r
        ≡ (ok token, record r { content = drop 12 r.content }))
      × (open_session gcm json sealer now token ≡ (
          if leb (seconds issued + 86_400) (seconds now)
          then err session_expired
          else if ltb (seconds now + 30) (seconds issued)
          then err session_in_future
          else ok (session_at issued user_id scopes)))
unfolding issue_session open_session
open_session-issue_session gcm json key sealer user_id scopes issued now r made hk reads hr enough =
    let (token, sealed, opened) =
      sealer_open-sealer_seal gcm key sealer reads.text session_aad r made hk reads.text-IsBytes hr
        enough in
    (token, rw (reads.printed, sealed) refl, rw (opened, reads.read_back) (ground arith))
