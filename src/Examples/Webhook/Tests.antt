-- ===== src/Examples/Webhook/Tests.antt =====
-- The theorem on the webhook example at concrete times, with the sample tag.
use crypt.Base.{◌*◌, ◌≡◌, leb, refl, true, if◌then◌else◌, arith}
use crypt.Base.Int.{pos}
use crypt.Base.Outcome.{ok, err, outside_tolerance}
use crypt.Sign.Sample.{sample_hmac}
use crypt.Examples.Webhook.{is_fresh, sign_webhook, verify_webhook}
use crypt.Examples.Webhook.RoundTrip.{distance, verify_webhook-sign_webhook}
use crypt.Samples.{key_32, hello}

-- Signed at second 1000 and checked at second 1200, with a tolerance of 300 seconds.
verify_webhook-sign_webhook_example :
    verify_webhook sample_hmac key_32 hello
      (sign_webhook sample_hmac key_32 hello (pos 1000))
      (pos 1200)
      (pos 300_000_000_000)
    ≡ (if leb (distance 1200 1000 * 1_000_000_000) 300_000_000_000
        then ok tt
        else err outside_tolerance)
unfolding distance
verify_webhook-sign_webhook_example =
    verify_webhook-sign_webhook sample_hmac key_32 hello 1200 1000 300_000_000_000 (omega arith)
      (omega arith) (omega arith)

-- The product wraps around: 585 years pass for 0.3 seconds.
wrapped_distance : is_fresh (pos 18_446_745_074) (pos 1000) (pos 300_000_000_000) ≡ true
unfolding is_fresh
wrapped_distance = refl
