-- ===== src/Examples/Links.antt =====
-- examples/csrf_token, examples/magic_link and examples/encrypted_cookie: values with a time inside
-- a sealed token, each under additional data of its own.
pub mod Window
mod Tests
use crypt.Base.{ℕ, ◌+◌, ◌-◌, ◌*◌, Option, none, some, [], not, leb, same, if◌then◌else◌}
use crypt.Base.Int.{ℤ, pos, negsuc, at_least, sub_int64}
use crypt.Base.Outcome.{
  Result, ok, guard, or_fail, instead, ◌>>=◌, ◌>>◌, bad_inner, invalid_session, session_expired,
  no_session, foreign_session,
}
use crypt.Wire.{Bytes}
use crypt.Wire.Text.{codes}
use crypt.Entropy as Entropy
use crypt.Entropy.{Drawing, lift}
use crypt.Cipher.{Aead}
use crypt.Gcm.Sealer.{Sealer, sealer_seal, sealer_open}
use crypt.TimeLock.Issue.{seconds}
use crypt.Examples.Json.{Json}

-- `time.Now().Add(ttl).Unix()`, where the time to live may be negative; seconds are rounded down.
abbrev pub unix_after : ℕ → ℤ → ℤ
unix_after now (pos ttl) = pos (seconds (now + ttl))
unix_after now (negsuc ttl) =
    if leb (ttl + 1) now then pos (seconds (now - (ttl + 1))) else negsuc (seconds (ttl - now))

-- `csrfPayload`
pub record CsrfPayload : Type 0 where
  pub session_id : Bytes
  pub issued_at : ℤ

-- 15 minutes in seconds
abbrev pub csrf_ttl : ℕ
csrf_ttl = 15 * 60

abbrev pub text_or_empty : Option Bytes → Bytes
text_or_empty none = []
text_or_empty (some text) = text

-- `IssueCSRF`, which drops the error of `json.Marshal`
unfoldable pub issue_csrf : Aead → Json CsrfPayload → Sealer → ℕ → Bytes → Drawing Bytes
issue_csrf gcm json sealer now session_id =
    sealer_seal gcm sealer
      (text_or_empty
        (json.marshal (record { session_id = session_id; issued_at = pos (seconds now) })))
      (codes "csrf-v1")

-- `VerifyCSRF`
unfoldable pub verify_csrf :
    Aead → Json CsrfPayload → Sealer → ℕ → Bytes → Bytes → Result (Unit {0})
verify_csrf gcm json sealer now token expected = do
  text ← instead invalid_session (sealer_open gcm sealer token (codes "csrf-v1"))
  p ← or_fail (json.unmarshal text) invalid_session
  guard (same p.session_id expected) foreign_session
  guard (at_least (pos csrf_ttl) (sub_int64 (pos (seconds now)) p.issued_at)) session_expired

-- `linkPayload` and `sessionCookie`
pub record LinkPayload : Type 0 where
  pub user_id : Bytes
  pub expires_at : ℤ

-- `issueLink`
unfoldable pub issue_link : Aead → Json LinkPayload → Sealer → ℕ → Bytes → Bytes → ℤ → Drawing Bytes
issue_link gcm json sealer now user_id purpose ttl =
    Entropy.◌>>=◌
      (lift (
        or_fail (json.marshal (record { user_id = user_id; expires_at = unix_after now ttl }))
          bad_inner))
      λ text. sealer_seal gcm sealer text purpose

-- `verifyLink`
unfoldable pub verify_link : Aead → Json LinkPayload → Sealer → ℕ → Bytes → Bytes → Result Bytes
verify_link gcm json sealer now token purpose = do
  text ← instead invalid_session (sealer_open gcm sealer token purpose)
  p ← or_fail (json.unmarshal text) invalid_session
  guard (not (at_least (pos (seconds now)) p.expires_at)) session_expired
  ok p.user_id

-- The value of the cookie that `setSession` sets.
unfoldable pub set_session : Aead → Json LinkPayload → Sealer → ℕ → Bytes → ℤ → Drawing Bytes
set_session gcm json sealer now user_id ttl =
    Entropy.◌>>=◌
      (lift (
        or_fail (json.marshal (record { user_id = user_id; expires_at = unix_after now ttl }))
          bad_inner))
      λ text. sealer_seal gcm sealer text (codes "cookie-v1")

-- `getSession`, given the value of the cookie if the request has it
unfoldable pub get_session :
    Aead → Json LinkPayload → Sealer → ℕ → Option Bytes → Result LinkPayload
get_session gcm json sealer now cookie = do
  value ← or_fail cookie no_session
  text ← instead invalid_session (sealer_open gcm sealer value (codes "cookie-v1"))
  s ← or_fail (json.unmarshal text) invalid_session
  guard (not (at_least (pos (seconds now)) s.expires_at)) session_expired
  ok s
