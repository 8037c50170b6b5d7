-- ===== src/TimeLock/Issue.antt =====
-- timelock.go: `IssueToken`.
use crypt.Base.{ℕ, ◌+◌, ◌/◌, ◌%◌, ◌^◌, ◌++◌}
use crypt.Base.Int.{ℤ, is_positive, magnitude}
use crypt.Base.Outcome.{guard, bad_ttl}
use crypt.Wire.{Bytes, put_u64}
use crypt.Entropy.{Drawing, lift, ◌>>◌}
use crypt.Cipher.{Aead}
use crypt.Gcm.Seal.{seal}

-- `t.Unix()`
abbrev pub seconds : ℕ → ℕ
seconds nanoseconds = nanoseconds / 1_000_000_000

-- `IssueToken`; a `time.Duration` counts nanoseconds.
unfoldable pub issue_token : Aead → ℕ → Bytes → Bytes → ℤ → Bytes → Drawing Bytes
issue_token gcm now key payload ttl aad = do
  lift (guard (is_positive ttl) bad_ttl)
  let expiry = seconds (now + magnitude ttl)
  seal gcm key (put_u64 (expiry % 2 ^ 64) ++ payload) aad
