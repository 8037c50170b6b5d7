-- ===== src/Examples/Sessions.antt =====
-- examples/session_token: a session inside a sealed token, with an expiry.
pub mod Window
mod Tests
use crypt.Base.{ℕ, ◌+◌, ◌*◌, List, not}
use crypt.Base.Int.{ℤ, pos, at_least}
use crypt.Base.Outcome.{
  Result, ok, guard, or_fail, instead, ◌>>=◌, ◌>>◌, bad_inner, invalid_session, session_expired,
  session_in_future,
}
use crypt.Wire.{Bytes}
use crypt.Wire.Text.{codes}
use crypt.Entropy as Entropy
use crypt.Entropy.{Drawing, lift}
use crypt.Cipher.{Aead}
use crypt.Gcm.Sealer.{Sealer, sealer_seal, sealer_open}
use crypt.TimeLock.Issue.{seconds}
use crypt.Examples.Json.{Json}

pub record Session : Type 0 where
  pub user_id : Bytes
  pub scopes : List Bytes
  pub issued_at : ℤ
  pub expires_at : ℤ

abbrev pub session_aad : Bytes
session_aad = codes "session-v1"

-- 24 hours in nanoseconds, and 30 seconds
abbrev pub session_ttl : ℕ
session_ttl = 24 * 3600 * 1_000_000_000

abbrev pub clock_skew_limit : ℕ
clock_skew_limit = 30

-- The session that is sealed at a time in nanoseconds since 1970.
abbrev pub session_at : ℕ → Bytes → List Bytes → Session
session_at now user_id scopes = record {
  user_id = user_id;
  scopes = scopes;
  issued_at = pos (seconds now);
  expires_at = pos (seconds (now + session_ttl));
}

-- `IssueSession`
unfoldable pub issue_session : Aead → Json Session → Sealer → ℕ → Bytes → List Bytes → Drawing Bytes
issue_session gcm json sealer now user_id scopes =
    Entropy.◌>>=◌ (lift (or_fail (json.marshal (session_at now user_id scopes)) bad_inner))
      λ text. sealer_seal gcm sealer text session_aad

-- `OpenSession`
unfoldable pub open_session : Aead → Json Session → Sealer → ℕ → Bytes → Result Session
open_session gcm json sealer now token = do
  text ← instead invalid_session (sealer_open gcm sealer token session_aad)
  s ← or_fail (json.unmarshal text) invalid_session
  guard (not (at_least (pos (seconds now)) s.expires_at)) session_expired
  guard (at_least (pos (seconds now + clock_skew_limit)) s.issued_at) session_in_future
  ok s
