-- ===== src/Examples/Rings/Run.antt =====
-- What the program of examples/keyring_rotation prints.
use crypt.Base.{
  ◌≡◌, ◌≤◌, refl, List, [], ◌∷◌, length, take, drop, All-drop, length-drop, arith, same,
}
use crypt.Base.Outcome.{ok, tampered, slice-in_range}
use crypt.Wire.{Bytes, IsByte, IsBytes}
use crypt.Wire.Text.{codes}
use crypt.Entropy.{Reader}
use crypt.Cipher.{Aead, new_gcm_32}
use crypt.Assoc.{lookup, has, insert, delete}
use crypt.KeyRing.{KeyRing, new_key_ring, valid_kid, add, remove, set_active, active_kid_of}
use crypt.KeyRing.Seal.{ring_seal}
use crypt.KeyRing.Named.{ring_seal-NamesKey}
use crypt.Examples.Program.{text, failure}
use crypt.Examples.Rings.{key_v1, key_v2, kid_2025, kid_2026, rotate_keys}

abbrev pub ring_2025 : KeyRing
ring_2025 = record {
  active = kid_2025;
  keys = (kid_2025, key_v1) ∷ [];
  raw_keys = (kid_2025, key_v1) ∷ [];
}

abbrev ring_added : KeyRing
ring_added = record {
  active = kid_2025;
  keys = (kid_2025, key_v1) ∷ (kid_2026, key_v2) ∷ [];
  raw_keys = (kid_2025, key_v1) ∷ (kid_2026, key_v2) ∷ [];
}

abbrev pub ring_rotated : KeyRing
ring_rotated = record ring_added { active = kid_2026 }

abbrev ring_2026 : KeyRing
ring_2026 = record {
  active = kid_2026;
  keys = (kid_2026, key_v2) ∷ [];
  raw_keys = (kid_2026, key_v2) ∷ [];
}

ring_made : new_key_ring kid_2025 key_v1 ≡ ok ring_2025
unfolding new_key_ring valid_kid
ring_made = rw (new_gcm_32 key_v1 refl) refl

key_added : add ring_2025 kid_2026 key_v2 ≡ (ring_added, ok tt)
unfolding add valid_kid has insert lookup same
key_added = rw (new_gcm_32 key_v2 refl) refl

active_changed : set_active ring_added kid_2026 ≡ (ring_rotated, ok tt)
unfolding set_active has lookup same
active_changed = refl

key_removed : remove ring_rotated kid_2025 ≡ (ring_2026, ok tt)
unfolding remove has delete lookup same
key_removed = refl

-- With 24 bytes in the random source, whatever they are and in whatever order `Open` ranges over
-- the ring, the program ends without an error. It prints the active kid and the head of the token
-- that `Seal` makes of the first plaintext with the ring of the 2025 key, the active kid and the
-- head of the token that `Seal` makes of the second plaintext, from the random bytes that are left,
-- with the ring of both keys of which the 2026 key is active, then both plaintexts, which the
-- rotated ring opens, the kid of the ring without the 2025 key, and at last ErrTampered.
pub rotate_keys-prints :
    (c : Aead) (first_order second_order third_order : List Bytes) (r : Reader)
    → IsBytes r.content
    → 24 ≤ length r.content
    → (old new : Bytes) × (ring_seal c ring_2025 (codes "encrypted in 2025") [] r
        ≡ (ok old, record r { content = drop 12 r.content }))
      × (ring_seal c ring_rotated
            (codes "encrypted in 2026")
            []
            (record r { content = drop 12 r.content })
          ≡ (ok new, record r { content = drop 12 (drop 12 r.content) }))
      × (rotate_keys c first_order second_order third_order (record { random = r; printed = [] })
          ≡ (
            ok tt,
            record {
              random = record r { content = drop 12 (drop 12 r.content) };
              printed =
                  text kid_2025
                  ∷ text (take 32 old)
                  ∷ text kid_2026
                  ∷ text (take 32 new)
                  ∷ text (codes "encrypted in 2025")
                  ∷ text (codes "encrypted in 2026")
                  ∷ text kid_2026
                  ∷ failure tampered
                  ∷ [];
            },
          ))
unfolding rotate_keys active_kid_of lookup same
rotate_keys-prints c first_order second_order third_order r hr enough =
    let r1 : Reader = record r { content = drop 12 r.content } in
    let (old, old_sealed, old_long, (old_opens, old_refused)) =
      ring_seal-NamesKey c ring_2025 (codes "encrypted in 2025") [] r key_v1 refl (omega arith)
        (omega arith) (omega arith) (omega arith) hr (omega arith) in
    let (new, new_sealed, new_long, (new_opens, _)) =
      ring_seal-NamesKey c ring_rotated (codes "encrypted in 2026") [] r1 key_v2 refl (omega arith)
        (omega arith) (omega arith) (omega arith) (All-drop IsByte 12 r.content hr)
        (omega (arith, length-drop 12 r.content)) in
    (
      old,
      new,
      old_sealed,
      new_sealed,
      rw
          (
            rotate_keys,
            ring_made,
            old_sealed,
            slice-in_range 0 32 old (omega arith) (omega arith),
            key_added,
            active_changed,
            new_sealed,
            slice-in_range 0 32 new (omega arith) (omega arith),
            old_opens ring_rotated first_order refl,
            new_opens ring_rotated second_order refl,
            key_removed,
            old_refused ring_2026 third_order refl,
          )
          refl,
    )
