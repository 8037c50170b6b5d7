-- ===== src/Examples/Envelopes/Run.antt =====
-- What the program of examples/envelope_encryption prints.
use crypt.Base.{◌+◌, ◌++◌, List, some, ◌≡◌, ◌≤◌, refl, [], ◌∷◌, length, take, arith, not, same}
use crypt.Base.Outcome.{ok, slice-in_range}
use crypt.Wire.{Bytes, IsBytes}
use crypt.Wire.Text.{codes}
use crypt.Entropy.{Reader}
use crypt.Cipher.{Aead}
use crypt.Assoc.{lookup, insert}
use crypt.Kms.Seal.{StaticKms, new_static_kms, add_key, new_envelope_sealer}
use crypt.Kms.InMemory.{static_sealer, static_envelope}
use crypt.Examples.Program.{Shown, text, flag}
use crypt.Examples.Envelopes.{
  kek, kek_id, card_data, sealed_and_opened, sealed_twice, envelopes_main,
}

abbrev service : StaticKms
service = record { keks = (kek_id, kek) ∷ [] }

key_added : add_key new_static_kms kek_id kek ≡ (service, ok tt)
unfolding add_key insert
key_added = refl

module _ (c : Aead) (s : StaticKms) (id k : Bytes) (found : lookup id s.keks ≡ some k)
    (hk : length k ≡ 32) (r : Reader) (hr : IsBytes r.content) (shown : List Shown) where
  round_trip_shown :
      56 ≤ length r.content
      → (ct : Bytes) × (r' : Reader) × (sealed_and_opened c
            (static_sealer c s id k)
            (record { random = r; printed = shown })
          ≡ (
            ok tt,
            record {
              random = r';
              printed = (shown ++ (text (take 48 ct) ∷ [])) ++ (text card_data ∷ []);
            },
          ))
        × (length r'.content + 56 ≡ length r.content)
        × IsBytes r'.content
  unfolding sealed_and_opened
  round_trip_shown enough =
      let (ct, r1, sealed, left, hr1, long, opened) =
        static_envelope c s id k card_data (codes "table:transactions") r found hk (omega arith) hr
          enough in
      (
        ct,
        r1,
        rw (sealed_and_opened, sealed, slice-in_range 0 48 ct (omega arith) long, opened) refl,
        left,
        hr1,
      )

  comparison_shown :
      112 ≤ length r.content
      → (a b : Bytes) × (r' : Reader) × (sealed_twice c
            (static_sealer c s id k)
            (record { random = r; printed = shown })
          ≡ (ok tt, record { random = r'; printed = shown ++ (flag (not (same a b)) ∷ []) }))
  unfolding sealed_twice
  comparison_shown enough =
      let (a, r1, sealed_a, left, hr1, _, _) =
        static_envelope c s id k card_data [] r found hk (omega arith) hr (omega arith) in
      let (b, r2, sealed_b, _, _, _, _) =
        static_envelope c s id k card_data [] r1 found hk (omega arith) hr1 (omega arith) in
      (a, b, r2, rw (sealed_twice, sealed_a, sealed_b) refl)

service_finds : lookup kek_id service.keks ≡ some kek
unfolding lookup same
service_finds = refl

-- With 168 bytes in the random source the program ends without an error and prints the head of a
-- token, the plaintext, and whether two tokens differ.
pub envelopes_main-prints :
    (c : Aead) (r : Reader)
    → IsBytes r.content
    → 168 ≤ length r.content
    → (ct a b : Bytes) × (r' : Reader) × (envelopes_main c (record { random = r; printed = [] }) ≡ (
      ok tt,
      record {
        random = r';
        printed = text (take 48 ct) ∷ text card_data ∷ flag (not (same a b)) ∷ [];
      },
    ))
unfolding envelopes_main new_envelope_sealer
envelopes_main-prints c r hr enough =
    let (ct, r1, first, left, hr1) =
      round_trip_shown c service kek_id kek service_finds refl r hr [] (omega arith) in
    let (a, b, r2, second) =
      comparison_shown c service kek_id kek service_finds refl r1 hr1
        (text (take 48 ct) ∷ text card_data ∷ []) (omega arith) in
    (ct, a, b, r2, rw (envelopes_main, key_added, first) second)
