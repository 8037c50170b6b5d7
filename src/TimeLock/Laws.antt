-- ===== src/TimeLock/Laws.antt =====
-- Tokens that expire: the round trip, the time limits, and the answers on any input.
use crypt.Base.{
  ℕ, ◌+◌, ◌%◌, ◌^◌, ◌≤◌, ◌<◌, ◌≡◌, ◌≢◌, refl, [], ◌++◌, length, ltb, true, arith, take, drop,
  All-append, length-append, if◌then◌else◌, le→ltb, lt→ltb, ltb→le, length-take, Bool-cases, inl,
  inr,
}
use crypt.Base.Int.{ℤ, is_positive, magnitude}
use crypt.Base.Outcome.{
  ok, err, panic, Result-cases, slice-append, slice_from-append, slice-in_range,
  slice_from-in_range, expired,
}
use crypt.Wire.{
  Bytes, IsByte, IsBytes, put_u64, u64-put_u64_only, u64_total, length-put_u64, put_u64-IsBytes,
}
use crypt.Entropy.{Reader}
use crypt.Cipher.{Aead}
use crypt.Gcm.Open.{open_token}
use crypt.Gcm.RoundTrip.{open_token-seal}
use crypt.Gcm.Accepts.{open_token-ne-panic}
use crypt.TimeLock.Issue.{seconds, issue_token}
use crypt.TimeLock.Verify.{check_expiry, verify_token}

-- On a payload behind an expiry that fits an int64, the clock alone decides.
pub check_expiry-put_u64 :
    (now expiry : ℕ) (payload : Bytes)
    → expiry < 2 ^ 63
    → check_expiry now (put_u64 (expiry % 2 ^ 64) ++ payload)
      ≡ (if ltb (seconds now) expiry then ok payload else err expired)
unfolding check_expiry
check_expiry-put_u64 now expiry payload fits =
    let small : expiry % 2 ^ 64 ≡ expiry = omega arith in
    let field : Bytes = put_u64 expiry in
    rw
      (
        small,
        le→ltb (length (field ++ payload)) 8
            (omega (arith, length-append field payload, length-put_u64 expiry)),
        slice-append 0 8 [] field payload refl (omega (arith, length-put_u64 expiry)),
        u64-put_u64_only expiry (omega arith),
        lt→ltb expiry (2 ^ 63) fits,
        slice_from-append 8 field payload (length-put_u64 expiry),
      )
      (ground arith)

-- With a key of 32 bytes, 12 bytes in the source, a positive TTL, and an expiry that an int64
-- holds, `IssueToken` returns a token, and `VerifyToken` of it with the same key and additional
-- data returns the payload at every time whose whole seconds are below those of the issue plus the
-- TTL, and `ErrExpired` at every other.
pub verify_token-issue_token :
    (c : Aead) (key payload aad : Bytes) (r : Reader) (ttl : ℤ) (now later : ℕ)
    → length key ≡ 32
    → IsBytes payload
    → IsBytes r.content
    → 12 ≤ length r.content
    → is_positive ttl ≡ true
    → seconds (now + magnitude ttl) < 2 ^ 63
    → (token : Bytes) × (issue_token c now key payload ttl aad r
        ≡ (ok token, record r { content = drop 12 r.content }))
      × (verify_token c later key token aad ≡ (
          if ltb (seconds later) (seconds (now + magnitude ttl)) then ok payload else err expired))
unfolding issue_token verify_token
verify_token-issue_token c key payload aad r ttl now later hk hp hr enough positive fits =
    let expiry : ℕ = seconds (now + magnitude ttl) in
    let wrapped : Bytes = put_u64 (expiry % 2 ^ 64) ++ payload in
    let (token, sealed, _, opened) =
      open_token-seal c key wrapped aad r hk
        (All-append IsByte (put_u64 (expiry % 2 ^ 64)) payload (put_u64-IsBytes (expiry % 2 ^ 64))
          hp)
        hr enough in
    (token, rw positive sealed, rw opened (check_expiry-put_u64 later expiry payload fits))

check_expiry-ne-panic : (now : ℕ) (wrapped : Bytes) → check_expiry now wrapped ≢ panic
unfolding check_expiry
check_expiry-ne-panic now wrapped h = elim (Bool-cases (ltb (length wrapped) 8)) [
  | inl few ↦ cc (rw few at h)
  | inr enough ↦
      let long : 8 ≤ length wrapped = ltb→le _ _ enough in
      let cut = slice-in_range 0 8 wrapped (omega arith) long in
      let (bits, read) = u64_total (take 8 wrapped) (omega (arith, length-take 8 wrapped)) in
      ground (arith, rw (enough, cut, read, slice_from-in_range 8 wrapped long) at h)
]

-- `VerifyToken` never panics, whatever the clock, the key and the token.
pub verify_token-ne-panic :
    (c : Aead) (now : ℕ) (key token aad : Bytes) → verify_token c now key token aad ≢ panic
unfolding verify_token
verify_token-ne-panic c now key token aad h = elim (Result-cases (open_token c key token aad)) [
  | inl (wrapped, e) ↦ check_expiry-ne-panic now wrapped (rw e at h)
  | inr (inl (x, e)) ↦ cc (rw e at h)
  | inr (inr e) ↦ open_token-ne-panic c key aad token e
]
