-- ===== src/TimeLock/Verify.antt =====
-- timelock.go: `VerifyToken`.
use crypt.Base.{ℕ, ltb, not, length}
use crypt.Base.Int.{pos, at_least, int64}
use crypt.Base.Outcome.{Result, guard, ◌>>=◌, ◌>>◌, slice, slice_from, invalid_ciphertext, expired}
use crypt.Wire.{Bytes, u64}
use crypt.Cipher.{Aead}
use crypt.Gcm.Open.{open_token}
use crypt.TimeLock.Issue.{seconds}

-- What follows the opening: the expiry is read, compared with the clock, and cut off.
unfoldable pub check_expiry : ℕ → Bytes → Result Bytes
check_expiry now wrapped = do
  guard (not (ltb (length wrapped) 8)) invalid_ciphertext
  field ← slice 0 8 wrapped
  bits ← u64 field
  guard (not (at_least (pos (seconds now)) (int64 bits))) expired
  slice_from 8 wrapped

-- `VerifyToken`
unfoldable pub verify_token : Aead → ℕ → Bytes → Bytes → Bytes → Result Bytes
verify_token gcm now key token aad = do
  wrapped ← open_token gcm key token aad
  check_expiry now wrapped
