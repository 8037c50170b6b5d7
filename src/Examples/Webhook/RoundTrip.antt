-- ===== src/Examples/Webhook/RoundTrip.antt =====
-- What `VerifyWebhook` answers to a header of `SignWebhook`.
use crypt.Base.{
  ℕ, ◌+◌, ◌-◌, ◌*◌, ◌^◌, ◌≤◌, ◌<◌, ◌≡◌, ◌≢◌, inl, inr, refl, sym, ap, ◌∙◌, [], ◌∷◌, ◌++◌,
  append_assoc, Bool, true, false, Bool-cases, All, leb, le→leb, ltb, ltb→lt, ltb→le, length, ne→==,
  arith, if◌then◌else◌,
}
use crypt.Base.Int.{pos, sub_int64-lt, sub_int64-ge, neg_int64-negsuc, mul_int64-seconds}
use crypt.Base.Outcome.{Error, ok, err, guard, ◌>>◌, outside_tolerance}
use crypt.Wire.{Bytes, IsBytes}
use crypt.Wire.Hex
use crypt.Wire.Text.{codes, split, split-part, split_last, has_prefix, has_prefix-append}
use crypt.Wire.Decimal.{format_uint, format_int}
use crypt.Wire.Decimal.RoundTrip.{IsDigit, format_uint-IsDecimal, digits_lack, parse_int-format_int}
use mathlib.Core.Path.{subst}
use crypt.Sign.{Hmac, sign, verify_iff}
use crypt.Examples.Webhook.{signed_text, sign_webhook, fields, is_fresh, verify_webhook}

-- How far two times are apart, in seconds.
unfoldable pub distance : ℕ → ℕ → ℕ
distance a b = (a - b) + (b - a)

distance-lt : (a b : ℕ) → a < b → b - a - 1 + 1 ≡ distance a b
unfolding distance
distance-lt a b h = omega arith

distance-ge : (a b : ℕ) → b ≤ a → a - b ≡ distance a b
unfolding distance
distance-ge a b h = omega arith

-- For times that are less than 285 years apart the product does not wrap around.
is_fresh-pos :
    (now sent tolerance : ℕ)
    → now < 2 ^ 63
    → sent < 2 ^ 63
    → distance now sent < 9_000_000_000
    → is_fresh (pos now) (pos sent) (pos tolerance)
      ≡ leb (distance now sent * 1_000_000_000) tolerance
unfolding is_fresh
is_fresh-pos now sent tolerance hn hs near = elim (Bool-cases (ltb now sent)) [
  | inl past ↦
      let lt = ltb→lt _ _ past in
      let gap = distance-lt now sent lt in
      rw
        (
          sub_int64-lt now sent lt hs,
          neg_int64-negsuc (sent - now - 1) (omega arith),
          gap,
          mul_int64-seconds (distance now sent) near,
        )
        refl
  | inr later ↦
      let le = ltb→le _ _ later in
      let gap = distance-ge now sent le in
      rw
        (
          sub_int64-ge now sent le hn,
          gap,
          le→leb 0 (distance now sent) (omega arith),
          mul_int64-seconds (distance now sent) near,
        )
        refl
]

not_ts : (v : Bytes) → has_prefix (codes "v1=" ++ v) (codes "t=") ≡ false
unfolding has_prefix
not_ts v = refl

fields_header :
    (ts v : Bytes) → fields ((codes "t=" ++ ts) ∷ (codes "v1=" ++ v) ∷ []) [] [] ≡ (ts, v)
unfolding fields
fields_header ts v =
    rw (has_prefix-append (codes "t=") ts, not_ts v, has_prefix-append (codes "v1=") v) refl

format_int-pos : (n : ℕ) → format_int (pos n) ≡ format_uint n
unfolding format_int
format_int-pos n = refl

guard_last :
    (passed : Bool) (e : Error)
    → (guard passed e >> ok (tt {0})) ≡ (if passed then ok (tt {0}) else err e)
guard_last true e = refl
guard_last false e = refl

module _ (hmac : Hmac) (secret body : Bytes) where
  abbrev mac_of : Bytes → Bytes
  mac_of ts = sign hmac secret (signed_text ts body)

  tag_size : (ts : Bytes) → length (mac_of ts) ≡ 32
  unfolding sign
  tag_size ts = hmac.length-tag secret (signed_text ts body)

  tag_bytes : (ts : Bytes) → IsBytes (mac_of ts)
  unfolding sign
  tag_bytes ts = hmac.tag-IsBytes secret (signed_text ts body)

  split-header :
      (ts : Bytes)
      → All (λ c. c ≢ b',') ts
      → split b',' (codes "t=" ++ (ts ++ (codes ",v1=" ++ Hex.encode (mac_of ts))))
        ≡ (codes "t=" ++ ts) ∷ (codes "v1=" ++ Hex.encode (mac_of ts)) ∷ []
  split-header ts lacks =
      let v1 : Bytes = codes "v1=" ++ Hex.encode (mac_of ts) in
      ap (split b',') (sym (append_assoc (codes "t=") ts (b',' ∷ v1)))
      ∙ split-part b',' (codes "t=" ++ ts) v1 (omega arith, (omega arith, lacks))
      ∙ ap (λ t. (codes "t=" ++ ts) ∷ t)
          (split_last b',' v1 (
            omega arith,
            (omega arith, (omega arith, Hex.encode-lacks (mac_of ts) (tag_bytes ts))),
          ))

  -- `VerifyWebhook` accepts a header that `SignWebhook` made with the same secret and body exactly
  -- if the two times are no further apart than the tolerance, and answers every other such header
  -- by the error on the time. The times are seconds that are less than 285 years apart.
  pub verify_webhook-sign_webhook :
      (now sent tolerance : ℕ)
      → now < 2 ^ 63
      → sent < 2 ^ 63
      → distance now sent < 9_000_000_000
      → verify_webhook hmac secret body
          (sign_webhook hmac secret body (pos sent))
          (pos now)
          (pos tolerance)
        ≡ (if leb (distance now sent * 1_000_000_000) tolerance
            then ok tt
            else err outside_tolerance)
  unfolding sign_webhook verify_webhook
  verify_webhook-sign_webhook now sent tolerance hn hs near =
      let ts : Bytes = format_int (pos sent) in
      let tag : Bytes = mac_of ts in
      let (c, rest, shape, digits, exact) = format_uint-IsDecimal sent in
      let printed = format_int-pos sent ∙ shape in
      let lacks =
        digits_lack b',' ts (inl (omega arith)) (subst (All IsDigit) (sym printed) digits) in
      rw
        (
          split-header ts lacks,
          fields_header ts (Hex.encode tag),
          ne→== (length ts) 0
              (λ (e : length ts ≡ 0). omega (arith, ap (λ (t : Bytes). length t) printed)),
          ne→== (length (Hex.encode tag)) 0 (λ (e : length (Hex.encode tag) ≡ 0).
              omega (arith, Hex.length-encode tag, tag_size ts)),
          parse_int-format_int (pos sent) hs,
          is_fresh-pos now sent tolerance hn hs near,
          Hex.decode-encode tag (tag_bytes ts),
          (verify_iff hmac secret (signed_text ts body) tag).1 refl,
        )
        (guard_last (leb (distance now sent * 1_000_000_000) tolerance) outside_tolerance)
