-- ===== src/Examples/Expiring/Run.antt =====
-- What the program of examples/time_locked_token prints.
use crypt.Base.{
  ℕ, ◌+◌, ◌-◌, ◌/◌, ◌^◌, ◌%◌, ◌≤◌, ◌<◌, ◌≡◌, refl, [], ◌∷◌, ◌++◌, length, drop, arith, lt→ltb,
  le→ltb, All-append, All-drop, length-drop,
}
use crypt.Base.Int.{pos, negsuc}
use crypt.Base.Outcome.{ok, expired}
use crypt.Wire.{Bytes, IsByte, IsBytes, put_u32, put_u64, put_u64-IsBytes}
use crypt.Wire.Text.{codes}
use crypt.Entropy.{Reader}
use crypt.Cipher.{Aead}
use crypt.Gcm.RoundTrip.{open_token-seal}
use crypt.TimeLock.Issue.{seconds}
use crypt.TimeLock.Verify.{verify_token}
use crypt.TimeLock.Laws.{check_expiry-put_u64, verify_token-issue_token, verify_token-ne-panic}
use crypt.Examples.Program.{text, failure, failures, print_failure_lem}
use crypt.Examples.Expiring.{
  hour, unix_from, pack_from, pack_expiry_bytes, program_key, print_expired, purpose_password_reset,
  purpose_email_verify, expiring_main, reset_token_ttl,
}

pack_from-put_u64 : (e : ℕ) → e < 2 ^ 64 → pack_from 8 0 e [] ≡ put_u64 e
unfolding pack_from put_u32 put_u64
pack_from-put_u64 e small = grind arith

-- An hour before a time that is at least that.
hour_before :
    (now : ℕ) → hour ≤ now → unix_from now (negsuc (hour - 1)) ≡ pos ((now - hour) / 1_000_000_000)
unfolding unix_from
hour_before now late = ground arith

packed_hour_before :
    (now : ℕ)
    → hour ≤ now
    → seconds now < 2 ^ 63
    → pack_expiry_bytes now (negsuc (hour - 1)) ≡ put_u64 ((now - hour) / 1_000_000_000 % 2 ^ 64)
unfolding pack_expiry_bytes
packed_hour_before now late fits =
    rw (hour_before now late)
      (pack_from-put_u64 ((now - hour) / 1_000_000_000 % 2 ^ 64) (omega arith))

-- If the clock does not run backwards while the last token is made and checked, the first token is
-- read back within its hour, and there are 24 bytes in the random source, the program ends without
-- an error and prints the link, the payload, what comes of the token at the other endpoint, and at
-- last ErrExpired.
pub expiring_main-prints :
    (c : Aead) (r : Reader) (issued verified replayed packed checked : ℕ)
    → IsBytes r.content
    → 24 ≤ length r.content
    → seconds (issued + hour) < 2 ^ 63
    → seconds verified < seconds (issued + hour)
    → hour ≤ packed
    → packed ≤ checked
    → seconds packed < 2 ^ 63
    → (tok : Bytes) × (expiring_main c issued verified replayed packed checked
          (record { random = r; printed = [] })
        ≡ (
          ok tt,
          record {
            random = record r { content = drop 12 (drop 12 r.content) };
            printed =
                (text (codes "https://app.example.com/reset?t=" ++ tok)
                  ∷ text (codes "user_id=usr_42")
                  ∷ failures (verify_token c replayed program_key tok purpose_email_verify))
                ++ (failure expired ∷ []);
          },
        ))
unfolding expiring_main verify_token print_expired
expiring_main-prints c r issued verified replayed packed checked hr enough fits soon late forward
      fits' =
    let r1 : Reader = record r { content = drop 12 r.content } in
    let (tok, sent, opened) =
      verify_token-issue_token c program_key (codes "user_id=usr_42") purpose_password_reset r
        reset_token_ttl issued verified refl (omega arith) hr (omega arith) refl fits in
    let e : ℕ = (packed - hour) / 1_000_000_000 in
    let stale_payload : Bytes = put_u64 (e % 2 ^ 64) ++ codes "stale" in
    let (stale, sealed, _, stale_opens) =
      open_token-seal c program_key stale_payload purpose_password_reset r1 refl
        (All-append IsByte (put_u64 (e % 2 ^ 64)) (codes "stale") (put_u64-IsBytes (e % 2 ^ 64))
          (omega arith))
        (All-drop IsByte 12 r.content hr) (omega (arith, length-drop 12 r.content)) in
    (
      tok,
      rw
          (
            expiring_main,
            sent,
            opened,
            lt→ltb (seconds verified) (seconds (issued + hour)) soon,
            print_failure_lem (verify_token c replayed program_key tok purpose_email_verify) _
                (verify_token-ne-panic c replayed program_key tok purpose_email_verify),
            packed_hour_before packed late fits',
            sealed,
            stale_opens,
            check_expiry-put_u64 checked e (codes "stale") (omega arith),
            le→ltb (seconds checked) e (omega arith),
          )
          refl,
    )
