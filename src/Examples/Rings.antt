-- ===== src/Examples/Rings.antt =====
-- examples/keyring_rotation: the program.
pub mod Run
mod Tests
use crypt.Base.{List, [], ◌∷◌, replicate}
use crypt.Base.Outcome.{Result, ok, err, panic, slice}
use crypt.Wire.{Bytes}
use crypt.Wire.Text.{codes}
use crypt.Cipher.{Aead}
use crypt.KeyRing.{KeyRing, new_key_ring, add, remove, set_active, active_kid_of}
use crypt.KeyRing.Seal.{ring_seal}
use crypt.KeyRing.Open.{ring_open}
use crypt.Examples.Program.{
  Program, text, ◌>>=◌, ◌>>◌, lift, drawn_ignoring, ignoring, settled, print, print_failure,
}

abbrev pub key_v1 : Bytes
key_v1 = replicate 32 0x01

abbrev pub key_v2 : Bytes
key_v2 = replicate 32 0x02

abbrev pub kid_2025 : Bytes
kid_2025 = codes "2025"

abbrev pub kid_2026 : Bytes
kid_2026 = codes "2026"

-- `main`. The orders are those in which the three calls of `Open` range over the ring.
unfoldable pub rotate_keys : Aead → List Bytes → List Bytes → List Bytes → Program (Unit {0})
rotate_keys c first_order second_order third_order = do
  ring ← lift (new_key_ring kid_2025 key_v1)
  old ← drawn_ignoring [] (ring_seal c ring (codes "encrypted in 2025") [])
  old_head ← lift (slice 0 32 old)
  print (text (active_kid_of ring) ∷ text old_head ∷ [])
  added ← settled (add ring kid_2026 key_v2)
  rotated ← settled (set_active added kid_2026)
  new ← drawn_ignoring [] (ring_seal c rotated (codes "encrypted in 2026") [])
  new_head ← lift (slice 0 32 new)
  print (text (active_kid_of rotated) ∷ text new_head ∷ [])
  first_plain ← lift (ignoring [] (ring_open c rotated first_order old []))
  print (text first_plain ∷ [])
  second_plain ← lift (ignoring [] (ring_open c rotated second_order new []))
  print (text second_plain ∷ [])
  last ← settled (remove rotated kid_2025)
  print (text (active_kid_of last) ∷ [])
  print_failure (ring_open c last third_order old [])
