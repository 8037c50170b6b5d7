-- ===== src/KeyRing.antt =====
-- keyring.go: the type `KeyRing`. Its state and the methods that change it stand here, sealing and
-- opening in `Seal` and `Open`. A method returns the ring as it leaves it, and its error.
pub mod Seal
mod Tests
pub mod Open
pub mod Invariant
pub mod Version3
pub mod Version1
pub mod Dispatch
pub mod Rotation
pub mod Named
pub mod Spec
use crypt.Base.{ℕ, length, leb, ltb, ◌==◌, not, List, [], ◌∷◌, same, if◌then◌else◌, true, false}
use crypt.Base.Outcome.{
  Result, ok, err, panic, guard, ◌>>=◌, ◌>>◌, invalid_key, empty_kid, kid_too_long, duplicate_kid,
  unknown_kid, active_kid,
}
use crypt.Wire.{Bytes}
use crypt.Cipher.{new_gcm}
use crypt.Format.{aead_key_size, key_ring_max_kid_len}
use crypt.Assoc.{Map, lookup, has, insert, delete}

-- `keys` maps a kid to the cipher bound to its key (here, the key), `raw_keys` to the key itself.
pub record KeyRing : Type 0 where
  pub active : Bytes
  pub keys : Map
  pub raw_keys : Map

-- `validKid`
unfoldable pub valid_kid : Bytes → Result (Unit {0})
valid_kid kid = do
  guard (not (length kid == 0)) empty_kid
  guard (not (ltb key_ring_max_kid_len (length kid))) kid_too_long

-- `NewKeyRing`
unfoldable pub new_key_ring : Bytes → Bytes → Result KeyRing
new_key_ring kid key = do
  valid_kid kid
  guard (length key == aead_key_size) invalid_key
  gcm ← new_gcm key
  ok (record { active = kid; keys = (kid, gcm) ∷ []; raw_keys = (kid, key) ∷ [] })

-- The end of a method: the new state, or the old one with the error.
abbrev pub commit : KeyRing → Result KeyRing → KeyRing × Result (Unit {0})
commit r (ok r') = (r', ok tt)
commit r (err e) = (r, err e)
commit r panic = (r, panic)

-- `KeyRing.Add`
unfoldable pub add : KeyRing → Bytes → Bytes → KeyRing × Result (Unit {0})
add r kid key = commit r do
  valid_kid kid
  guard (not (has kid r.keys)) duplicate_kid
  guard (length key == aead_key_size) invalid_key
  gcm ← new_gcm key
  ok (record r { keys = insert kid gcm r.keys; raw_keys = insert kid key r.raw_keys })

-- `KeyRing.Remove`
unfoldable pub remove : KeyRing → Bytes → KeyRing × Result (Unit {0})
remove r kid = commit r do
  guard (not (same kid r.active)) active_kid
  guard (has kid r.keys) unknown_kid
  ok (record r { keys = delete kid r.keys; raw_keys = delete kid r.raw_keys })

-- `KeyRing.SetActive`
unfoldable pub set_active : KeyRing → Bytes → KeyRing × Result (Unit {0})
set_active r kid = commit r do guard (has kid r.keys) unknown_kid; ok (record r { active = kid })

-- `KeyRing.ActiveKid`
unfoldable pub active_kid_of : KeyRing → Bytes
active_kid_of r = r.active

-- A call of a method that changes the ring.
pub data Call : Type 0 where
  call_add : Bytes → Bytes → Call
  call_remove : Bytes → Call
  call_set_active : Bytes → Call

unfoldable pub step : KeyRing → Call → KeyRing × Result (Unit {0})
step r (call_add kid key) = add r kid key
step r (call_remove kid) = remove r kid
step r (call_set_active kid) = set_active r kid

-- The ring after a sequence of calls, failed ones included.
unfoldable pub run : KeyRing → List Call → KeyRing
run r [] = r
run r (c ∷ cs) = run (step r c).0 cs
