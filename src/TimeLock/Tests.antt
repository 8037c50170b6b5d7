-- ===== src/TimeLock/Tests.antt =====
-- The theorems on timelock.go at concrete inputs, with the sample cipher.
use crypt.Base.{◌+◌, ◌≡◌, ◌≢◌, refl, [], ◌∷◌, drop, arith, ltb, if◌then◌else◌}
use crypt.Base.Int.{pos}
use crypt.Base.Outcome.{ok, err, panic, expired}
use crypt.Wire.{Bytes}
use crypt.Cipher.Sample.{sample}
use crypt.TimeLock.Issue.{seconds, issue_token}
use crypt.TimeLock.Verify.{verify_token}
use crypt.TimeLock.Laws.{verify_token-issue_token, verify_token-ne-panic}
use crypt.Samples.{key_32, hello, context, source}

-- A token issued at second 100 for 60 seconds, and verified at second 130.
verify_token-issue_token_example :
    (token : Bytes) × (issue_token sample 100_000_000_000 key_32 hello
        (pos 60_000_000_000)
        context
        source
      ≡ (ok token, record source { content = drop 12 source.content }))
    × (verify_token sample 130_000_000_000 key_32 token context ≡ (
        if ltb (seconds 130_000_000_000) (seconds (100_000_000_000 + 60_000_000_000))
        then ok hello
        else err expired))
verify_token-issue_token_example =
    verify_token-issue_token sample key_32 hello context source (pos 60_000_000_000) 100_000_000_000
      130_000_000_000 refl (omega arith) (omega arith) (omega arith) refl (omega arith)

verify_token-ne-panic_example : verify_token sample 100 key_32 (b'A' ∷ []) [] ≢ panic
verify_token-ne-panic_example = verify_token-ne-panic sample 100 key_32 (b'A' ∷ []) []
