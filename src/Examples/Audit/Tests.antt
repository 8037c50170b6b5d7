-- ===== src/Examples/Audit/Tests.antt =====
-- The theorems on the audit log at concrete logs, with the sample tag.
use crypt.Base.{List, map, ◌⊎◌, ℕ, ◌≡◌, ◌≢◌, refl, [], ◌∷◌, ◌++◌, length, take}
use crypt.Base.Int.{pos, negsuc}
use crypt.Wire.{Bytes}
use crypt.Sign.{sign}
use crypt.Sign.Sample.{sample_hmac}
use crypt.Examples.Audit.{AuditEntry, verify_log, last_mac, payload}
use crypt.Examples.Audit.Chain.{Event, event_of, tagged_text, made, log_of, verify_log-append_all}
use crypt.Samples.{key_32, hello, context}

abbrev time_text : ℕ → Bytes
time_text t = t ∷ []

abbrev login : Event
login = record { now = 5; actor = hello; action = context; resource = [] }

-- The first entry of two.
abbrev first_kept : List AuditEntry
first_kept = take 1 (made sample_hmac time_text key_32 (login ∷ login ∷ []))

-- An entry whose tag is empty.
abbrev forged : AuditEntry
forged = record { timestamp = 5; actor = hello; action = context; resource = []; mac = [] }

verify_log-append_all_example :
    (map event_of (made sample_hmac time_text key_32 (login ∷ login ∷ [])) ≡ login ∷ login ∷ [])
    × (verify_log sample_hmac time_text (log_of sample_hmac time_text key_32 (first_kept))
        ≡ negsuc 0)
    × (((forged.mac
            ≡ sign sample_hmac key_32 (tagged_text time_text (last_mac [] first_kept) forged))
          × (verify_log sample_hmac time_text
                (log_of sample_hmac time_text key_32 (first_kept ++ (forged ∷ [])))
              ≡ negsuc 0))
        ⊎ ((forged.mac
              ≢ sign sample_hmac key_32 (tagged_text time_text (last_mac [] first_kept) forged))
            × (verify_log sample_hmac time_text
                  (log_of sample_hmac time_text key_32 (first_kept ++ (forged ∷ forged ∷ [])))
                ≡ pos (length first_kept))))
verify_log-append_all_example =
    verify_log-append_all sample_hmac time_text key_32 (login ∷ login ∷ []) 1 forged (forged ∷ [])

-- The parts of a payload are not told apart when they have a bar of their own.
shifted_parts :
    payload time_text (record forged { actor = b'a' ∷ []; action = b'b' ∷ b'|' ∷ b'c' ∷ [] })
    ≡ payload time_text (record forged { actor = b'a' ∷ b'|' ∷ b'b' ∷ []; action = b'c' ∷ [] })
unfolding payload
shifted_parts = refl
