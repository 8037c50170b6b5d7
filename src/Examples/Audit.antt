-- ===== src/Examples/Audit.antt =====
-- examples/audit_log_chain: a log whose entries are chained by HMAC tags. The text of a time, which
-- package time makes, is a parameter.
pub mod Chain
mod Tests
use crypt.Base.{ℕ, suc, ◌+◌, List, [], ◌∷◌, ◌++◌, Bool, if◌then◌else◌}
use crypt.Base.Int.{ℤ, pos, negsuc}
use crypt.Wire.{Bytes}
use crypt.Sign.{Hmac, sign, verify}

pub record AuditEntry : Type 0 where
  pub timestamp : ℕ
  pub actor : Bytes
  pub action : Bytes
  pub resource : Bytes
  pub mac : Bytes

pub record AuditLog : Type 0 where
  pub secret : Bytes
  pub entries : List AuditEntry

-- `AuditEntry.payload`
unfoldable pub payload : (ℕ → Bytes) → AuditEntry → Bytes
payload format_time e =
    format_time e.timestamp ++ (b'|' ∷ (e.actor ++ (b'|' ∷ (e.action ++ (b'|' ∷ e.resource)))))

-- `NewAuditLog`
abbrev pub new_audit_log : Bytes → AuditLog
new_audit_log secret = record { secret = secret; entries = [] }

-- The tag of the last entry, and no bytes in an empty log.
unfoldable pub last_mac : Bytes → List AuditEntry → Bytes
last_mac prev [] = prev
last_mac prev (e ∷ es) = last_mac e.mac es

-- `AuditLog.Append` at a time
unfoldable pub append : Hmac → (ℕ → Bytes) → ℕ → AuditLog → Bytes → Bytes → Bytes → AuditLog
append hmac format_time now l actor action resource =
    let prev = last_mac [] l.entries in
    let e : AuditEntry = record {
      timestamp = now;
      actor = actor;
      action = action;
      resource = resource;
      mac = [];
    } in
    let tag = sign hmac l.secret (prev ++ payload format_time e) in
    record l { entries = l.entries ++ (record e { mac = tag } ∷ []) }

-- The loop of `Verify`, from an index and the tag before it.
unfoldable pub verify_from : Hmac → (ℕ → Bytes) → Bytes → ℕ → Bytes → List AuditEntry → ℤ
verify_from hmac format_time secret i prev [] = negsuc 0
verify_from hmac format_time secret i prev (e ∷ es) =
    let rest = verify_from hmac format_time secret (suc i) e.mac es in
    if verify hmac secret (prev ++ payload format_time e) e.mac then rest else pos i

-- `AuditLog.Verify`: the first index that breaks, or -1
unfoldable pub verify_log : Hmac → (ℕ → Bytes) → AuditLog → ℤ
verify_log hmac format_time l = verify_from hmac format_time l.secret 0 [] l.entries
