-- ===== src/Examples/Links/Window.antt =====
-- When a CSRF token, a magic link and a session cookie are accepted.
use crypt.Base.{
  ℕ, ◌-◌, ◌≤◌, ◌<◌, ◌^◌, ◌≡◌, refl, some, none, same, leb, length, drop, if◌then◌else◌, arith,
}
use crypt.Base.Int.{ℤ, pos, at_least, sub_int64-ge}
use crypt.Base.Outcome.{ok, err, foreign_session, session_expired, no_session}
use crypt.Wire.{Bytes, IsBytes}
use crypt.Wire.Text.{codes}
use crypt.Entropy.{Reader}
use crypt.Cipher.{Aead}
use crypt.Gcm.Sealer.{Sealer, new_sealer}
use crypt.Gcm.RoundTrip.{sealer_open-sealer_seal}
use crypt.TimeLock.Issue.{seconds}
use crypt.Examples.Json.{Json, ReadsBack}
use crypt.Examples.Links.{
  CsrfPayload, LinkPayload, unix_after, issue_csrf, verify_csrf, issue_link, verify_link,
  set_session, get_session,
}

module _ (gcm : Aead) (key : Bytes) (sealer : Sealer) (r : Reader)
    (made : new_sealer key ≡ ok sealer) (hk : length key ≡ 32) (hr : IsBytes r.content)
    (enough : 12 ≤ length r.content) where
  -- The payload of a link or a cookie.
  abbrev pub link_at : ℕ → Bytes → ℤ → LinkPayload
  link_at issued user_id ttl = record { user_id = user_id; expires_at = unix_after issued ttl }

  -- With a payload that JSON reads back, `IssueCSRF` returns a token, and `VerifyCSRF` of it at a
  -- later time accepts the session it was issued for until 900 seconds have gone by, counted in
  -- whole seconds; then it answers by the error on the age, and another session by its error.
  pub verify_csrf-issue_csrf :
      (json : Json CsrfPayload) (session_id expected : Bytes) (issued now : ℕ)
      → ReadsBack json (record { session_id = session_id; issued_at = pos (seconds issued) })
      → seconds issued ≤ seconds now
      → seconds now < 2 ^ 63
      → (token : Bytes) × (issue_csrf gcm json sealer issued session_id r
          ≡ (ok token, record r { content = drop 12 r.content }))
        × (verify_csrf gcm json sealer now token expected ≡ (
            if same session_id expected
            then (if leb (seconds now - seconds issued) 900 then ok tt else err session_expired)
            else err foreign_session))
  unfolding issue_csrf verify_csrf
  verify_csrf-issue_csrf json session_id expected issued now reads later small =
      let (token, sealed, opened) =
        sealer_open-sealer_seal gcm key sealer reads.text (codes "csrf-v1") r made hk
          reads.text-IsBytes hr enough in
      (
        token,
        rw (reads.printed, sealed) refl,
        rw (opened, reads.read_back, sub_int64-ge (seconds now) (seconds issued) later small)
            (ground arith),
      )

  -- `issueLink` and `verifyLink` with the same purpose: accepted before the second of the expiry.
  pub verify_link-issue_link :
      (json : Json LinkPayload) (user_id purpose : Bytes) (ttl : ℤ) (issued now : ℕ)
      → ReadsBack json (link_at issued user_id ttl)
      → (token : Bytes) × (issue_link gcm json sealer issued user_id purpose ttl r
          ≡ (ok token, record r { content = drop 12 r.content }))
        × (verify_link gcm json sealer now token purpose ≡ (
            if at_least (pos (seconds now)) (unix_after issued ttl)
            then err session_expired
            else ok user_id))
  unfolding issue_link verify_link
  verify_link-issue_link json user_id purpose ttl issued now reads =
      let (token, sealed, opened) =
        sealer_open-sealer_seal gcm key sealer reads.text purpose r made hk reads.text-IsBytes hr
          enough in
      (token, rw (reads.printed, sealed) refl, rw (opened, reads.read_back) (ground arith))

  -- The same for the value of the cookie.
  pub get_session-set_session :
      (json : Json LinkPayload) (user_id : Bytes) (ttl : ℤ) (issued now : ℕ)
      → ReadsBack json (link_at issued user_id ttl)
      → (value : Bytes) × (set_session gcm json sealer issued user_id ttl r
          ≡ (ok value, record r { content = drop 12 r.content }))
        × (get_session gcm json sealer now (some value) ≡ (
            if at_least (pos (seconds now)) (unix_after issued ttl)
            then err session_expired
            else ok (link_at issued user_id ttl)))
        × (get_session gcm json sealer now none ≡ err no_session)
  unfolding set_session get_session
  get_session-set_session json user_id ttl issued now reads =
      let (value, sealed, opened) =
        sealer_open-sealer_seal gcm key sealer reads.text (codes "cookie-v1") r made hk
          reads.text-IsBytes hr enough in
      (value, rw (reads.printed, sealed) refl, rw (opened, reads.read_back) (ground arith), refl)
