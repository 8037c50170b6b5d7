-- ===== src/Examples/Webhook.antt =====
-- examples/webhook_with_timestamp: a signature header with a time, and its check.
pub mod RoundTrip
mod Tests
use crypt.Base.{
  ℕ, ◌*◌, ◌^◌, List, [], ◌∷◌, ◌++◌, Bool, not, drop, ◌==◌, ◌||◌, length, if◌then◌else◌,
}
use crypt.Base.Int.{ℤ, pos, at_least, sub_int64, neg_int64, mul_int64}
use crypt.Base.Outcome.{
  Result, ok, err, guard, or_fail, ◌>>=◌, ◌>>◌, malformed_header, malformed_timestamp,
  outside_tolerance, malformed_mac, signature_mismatch,
}
use crypt.Wire.{Bytes}
use crypt.Wire.Hex
use crypt.Wire.Text.{codes, split, has_prefix}
use crypt.Wire.Decimal.{format_int, parse_int}
use crypt.Sign.{Hmac, sign, verify}

-- `<unix-seconds>.<body>`
abbrev pub signed_text : Bytes → Bytes → Bytes
signed_text ts body = ts ++ (b'.' ∷ body)

-- `SignWebhook`, at a time in seconds since 1970
unfoldable pub sign_webhook : Hmac → Bytes → Bytes → ℤ → Bytes
sign_webhook hmac secret body now =
    let ts = format_int now in
    codes "t=" ++ (ts ++ (codes ",v1=" ++ Hex.encode (sign hmac secret (signed_text ts body))))

-- The loop over the parts, which sets `ts` and `v1`.
unfoldable pub fields : List Bytes → Bytes → Bytes → Bytes × Bytes
fields [] ts v1 = (ts, v1)
fields (p ∷ ps) ts v1 =
    let is_ts = has_prefix p (codes "t=") in
    let is_v1 = has_prefix p (codes "v1=") in
    fields ps (if is_ts then drop 2 p else ts)
      (if is_ts then v1 else if is_v1 then drop 3 p else v1)

-- The distance of two times as a `time.Duration`, in int64 arithmetic, is within the tolerance.
unfoldable pub is_fresh : ℤ → ℤ → ℤ → Bool
is_fresh now ts tolerance =
    let delta = sub_int64 now ts in
    let distance = if not (at_least delta (pos 0)) then neg_int64 delta else delta in
    at_least tolerance (mul_int64 distance (pos 1_000_000_000))

-- `VerifyWebhook`, with the tolerance in nanoseconds
unfoldable pub verify_webhook : Hmac → Bytes → Bytes → Bytes → ℤ → ℤ → Result (Unit {0})
verify_webhook hmac secret body header now tolerance = do
  let parts = split b',' header
  guard (length parts == 2) malformed_header
  let (ts, v1) = fields parts [] []
  guard (not (length ts == 0 || length v1 == 0)) malformed_header
  ts_int ← or_fail (parse_int ts) malformed_timestamp
  guard (is_fresh now ts_int tolerance) outside_tolerance
  mac ← or_fail (Hex.decode v1) malformed_mac
  guard (verify hmac secret (signed_text ts body) mac) signature_mismatch
