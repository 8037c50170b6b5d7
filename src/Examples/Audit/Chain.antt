-- ===== src/Examples/Audit/Chain.antt =====
-- What `Verify` tells of a chain, which edits it finds, and which it does not.
use crypt.Base.{
  ℕ, zero, suc, map, append_assoc, append-nil, sym, ◌⊎◌, ◌+◌, ◌≡◌, ◌≢◌, refl, ap, ◌∙◌, List, [],
  ◌∷◌, ◌++◌, Bool-cases, inl, inr, length, take, arith,
}
use crypt.Base.Int.{pos, negsuc}
use crypt.Wire.{Bytes}
use crypt.Sign.{Hmac, sign, verify, verify_iff}
use crypt.Examples.Audit.{
  AuditEntry, AuditLog, payload, new_audit_log, last_mac, append, verify_from, verify_log,
}

-- The arguments of a call of `Append`, and the time of the call.
pub record Event : Type 0 where
  pub now : ℕ
  pub actor : Bytes
  pub action : Bytes
  pub resource : Bytes

abbrev pub event_of : AuditEntry → Event
event_of e = record { now = e.timestamp; actor = e.actor; action = e.action; resource = e.resource }

event_of-append :
    (es : List AuditEntry) (e : AuditEntry)
    → map event_of (es ++ (e ∷ [])) ≡ map event_of es ++ (event_of e ∷ [])
event_of-append [] e = refl
event_of-append (x ∷ es) e = ap (λ t. event_of x ∷ t) (event_of-append es e)

-- The text under the tag of an entry: the tag before it, the time, and the parts, with bars.
abbrev pub tagged_text : (ℕ → Bytes) → Bytes → AuditEntry → Bytes
tagged_text format_time prev e =
    prev
    ++ (format_time e.timestamp ++ (b'|' ∷ (e.actor ++ (b'|' ∷ (e.action ++ (b'|' ∷ e.resource))))))

module _ (hmac : Hmac) (format_time : ℕ → Bytes) (secret : Bytes) where
  -- Each tag is the HMAC of the tag before it and of the payload.
  abbrev pub IsChain : Bytes → List AuditEntry → Type 0
  IsChain prev [] = Unit {0}
  IsChain prev (e ∷ es) =
      (e.mac ≡ sign hmac secret (prev ++ payload format_time e)) × IsChain e.mac es

  verify_from-IsChain :
      (i : ℕ) (prev : Bytes) (es : List AuditEntry)
      → IsChain prev es
      → verify_from hmac format_time secret i prev es ≡ negsuc 0
  unfolding verify_from
  verify_from-IsChain i prev [] h = refl
  verify_from-IsChain i prev (e ∷ es) (he, h) =
      rw ((verify_iff hmac secret (prev ++ payload format_time e) e.mac).1 he)
        (verify_from-IsChain (suc i) e.mac es h)

  take-IsChain :
      (n : ℕ) (prev : Bytes) (es : List AuditEntry) → IsChain prev es → IsChain prev (take n es)
  take-IsChain zero prev es h = tt
  take-IsChain (suc n) prev [] h = tt
  take-IsChain (suc n) prev (e ∷ es) (he, h) = (he, take-IsChain n e.mac es h)

  append-IsChain :
      (prev : Bytes) (es : List AuditEntry) (e : AuditEntry)
      → IsChain prev es
      → e.mac ≡ sign hmac secret (last_mac prev es ++ payload format_time e)
      → IsChain prev (es ++ (e ∷ []))
  unfolding last_mac
  append-IsChain prev [] e h he = (he, tt)
  append-IsChain prev (x ∷ es) e (hx, h) he = (hx, append-IsChain x.mac es e h he)

  -- The log after a sequence of calls of `Append`.
  unfoldable pub append_all : List Event → AuditLog → AuditLog
  append_all [] l = l
  append_all (v ∷ vs) l =
      append_all vs (append hmac format_time v.now l v.actor v.action v.resource)

  append_all-IsChain :
      (vs : List Event) (l : AuditLog)
      → l.secret ≡ secret
      → IsChain [] l.entries
      → ((append_all vs l).secret ≡ secret) × IsChain [] (append_all vs l).entries
  unfolding append_all append payload
  append_all-IsChain [] l hs h = (hs, h)
  append_all-IsChain (v ∷ vs) l hs h =
      append_all-IsChain vs (append hmac format_time v.now l v.actor v.action v.resource) hs (
        append-IsChain [] l.entries _ h (
          ap
            (λ t. sign hmac t (
              last_mac [] l.entries
              ++ (format_time v.now
                  ++ (b'|' ∷ (v.actor ++ (b'|' ∷ (v.action ++ (b'|' ∷ v.resource))))))))
            hs))

  -- The entries that a sequence of calls of `Append` makes in a new log.
  abbrev pub made : List Event → List AuditEntry
  made vs = (append_all vs (new_audit_log secret)).entries

  map-event_of-append_all :
      (vs : List Event) (l : AuditLog)
      → map event_of (append_all vs l).entries ≡ map event_of l.entries ++ vs
  unfolding append_all append
  map-event_of-append_all [] l = sym (append-nil (map event_of l.entries))
  map-event_of-append_all (v ∷ vs) l =
      map-event_of-append_all vs (append hmac format_time v.now l v.actor v.action v.resource)
      ∙ ap (λ t. t ++ vs) (event_of-append l.entries _)
      ∙ append_assoc (map event_of l.entries) (v ∷ []) vs

  abbrev pub log_of : List AuditEntry → AuditLog
  log_of es = record { secret = secret; entries = es }

  verify_log-IsChain :
      (es : List AuditEntry) → IsChain [] es → verify_log hmac format_time (log_of es) ≡ negsuc 0
  unfolding verify_log
  verify_log-IsChain es h = verify_from-IsChain 0 [] es h

  verify_from_broken :
      (i : ℕ) (prev : Bytes) (xs ys : List AuditEntry) (e : AuditEntry)
      → IsChain prev xs
      → e.mac ≢ sign hmac secret (last_mac prev xs ++ payload format_time e)
      → verify_from hmac format_time secret i prev (xs ++ (e ∷ ys)) ≡ pos (i + length xs)
  unfolding verify_from last_mac
  verify_from_broken i prev [] ys e h broken =
      elim (Bool-cases (verify hmac secret (prev ++ payload format_time e) e.mac)) [
        | inl good ↦
            absurd (broken ((verify_iff hmac secret (prev ++ payload format_time e) e.mac).0 good))
        | inr bad ↦ rw bad (ap pos (omega arith))
      ]
  verify_from_broken i prev (x ∷ xs) ys e (hx, h) broken =
      rw ((verify_iff hmac secret (prev ++ payload format_time x) x.mac).1 hx)
        (verify_from_broken (suc i) x.mac xs ys e h broken ∙ ap pos (omega arith))

  -- Where an entry of a log is replaced by one whose tag is not the HMAC of the tag before it and
  -- of its payload, and the entries before it are a chain, `Verify` answers the index of that
  -- entry, whatever follows.
  verify_log_tampered :
      (before after : List AuditEntry) (e : AuditEntry)
      → IsChain [] before
      → e.mac ≢ sign hmac secret (last_mac [] before ++ payload format_time e)
      → verify_log hmac format_time (record { secret = secret; entries = before ++ (e ∷ after) })
        ≡ pos (length before)
  unfolding verify_log
  verify_log_tampered before after e h broken =
      verify_from_broken 0 [] before after e h broken ∙ ap pos (omega arith)

  -- After any calls of `Append` on a new log its entries are the events of the calls, in their
  -- order. If the first `n` of these entries are kept, `Verify` answers -1, so that entries dropped
  -- from the end are not found. For any entry put behind them, either its tag is the HMAC of the
  -- tag before it and of its text, and `Verify` of the log that ends with it answers -1; or its tag
  -- is another, and `Verify` answers its index, whatever follows.
  pub verify_log-append_all :
      (vs : List Event) (n : ℕ) (e : AuditEntry) (after : List AuditEntry)
      → (map event_of (made vs) ≡ vs)
        × (verify_log hmac format_time (log_of (take n (made vs))) ≡ negsuc 0)
        × (((e.mac ≡ sign hmac secret (tagged_text format_time (last_mac [] (take n (made vs))) e))
              × (verify_log hmac format_time (log_of (take n (made vs) ++ (e ∷ []))) ≡ negsuc 0))
            ⊎ ((e.mac
                  ≢ sign hmac secret (tagged_text format_time (last_mac [] (take n (made vs))) e))
                × (verify_log hmac format_time (log_of (take n (made vs) ++ (e ∷ after)))
                    ≡ pos (length (take n (made vs))))))
  unfolding payload
  verify_log-append_all vs n e after =
      let kept : List AuditEntry = take n (made vs) in
      let text : Bytes = tagged_text format_time (last_mac [] kept) e in
      let chain : IsChain [] kept =
        take-IsChain n [] (made vs) (append_all-IsChain vs (new_audit_log secret) refl tt).1 in
      (
        map-event_of-append_all vs (new_audit_log secret),
        verify_log-IsChain kept chain,
        elim (Bool-cases (verify hmac secret text e.mac)) [
          | inl good ↦
              let tag : e.mac ≡ sign hmac secret text =
                (verify_iff hmac secret text e.mac).0 good in
              inl (tag, verify_log-IsChain (kept ++ (e ∷ [])) (append-IsChain [] kept e chain tag))
          | inr bad ↦
              let other : e.mac ≢ sign hmac secret text =
                λ tag. cc (bad, (verify_iff hmac secret text e.mac).1 tag) in
              inr (other, verify_log_tampered kept after e chain other)
        ],
      )
