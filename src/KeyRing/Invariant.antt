-- ===== src/KeyRing/Invariant.antt =====
-- The well-formedness of a ring, and that every method keeps it.
use crypt.Base.{
  ◌≤◌, ◌≡◌, refl, List, [], ◌∷◌, length, arith, none, some, same, same_self, same_iff, inl, inr,
  true, false, ◌⊎◌,
}
use crypt.Base.Outcome.{ok}
use crypt.Wire.{Bytes}
use crypt.Cipher.{new_gcm_32}
use crypt.Assoc.{lookup, has, insert, delete, lookup-insert, lookup-delete, has-lookup, has_missing}
use crypt.KeyRing.{
  KeyRing, valid_kid, new_key_ring, add, remove, set_active, Call, call_add, call_remove,
  call_set_active, step, run,
}

abbrev pub Fits : Bytes → Bytes → Type 0
Fits kid key = (length key ≡ 32) × (1 ≤ length kid) × (length kid ≤ 64)

-- The active kid has a key, every kid and key has a length that the format allows, and the two
-- maps of the ring agree.
pub record IsValid (r : KeyRing) : Type 0 where
  pub active_bound : (key : Bytes) × (lookup r.active r.keys ≡ some key)
  pub entries_fit : (kid key : Bytes) → lookup kid r.keys ≡ some key → Fits kid key
  pub maps_agree : (kid : Bytes) → lookup kid r.raw_keys ≡ lookup kid r.keys

-- `Add` leaves the ring alone, or binds a kid that was free to a key that fits.
pub add_cases :
    (r : KeyRing) (kid key : Bytes)
    → ((add r kid key).0 ≡ r)
      ⊎ (Fits kid key
          × (lookup kid r.keys ≡ none)
          × ((add r kid key).0
              ≡ record r { keys = insert kid key r.keys; raw_keys = insert kid key r.raw_keys }))
unfolding add valid_kid
add_cases r kid key = ground (arith, new_gcm_32 key, has_missing kid r.keys)

pub remove_cases :
    (r : KeyRing) (kid : Bytes)
    → ((remove r kid).0 ≡ r)
      ⊎ ((same kid r.active ≡ false)
          × ((remove r kid).0
              ≡ record r { keys = delete kid r.keys; raw_keys = delete kid r.raw_keys }))
unfolding remove
remove_cases r kid = ground arith

pub set_active_cases :
    (r : KeyRing) (kid : Bytes)
    → ((set_active r kid).0 ≡ r)
      ⊎ ((has kid r.keys ≡ true) × ((set_active r kid).0 ≡ record r { active = kid }))
unfolding set_active
set_active_cases r kid = ground arith

module _ (r : KeyRing) (v : IsValid r) where
  open v use {active_bound, entries_fit, maps_agree}

  inserted-IsValid :
      (kid key : Bytes)
      → Fits kid key
      → lookup kid r.keys ≡ none
      → IsValid (record r { keys = insert kid key r.keys; raw_keys = insert kid key r.raw_keys })
  inserted-IsValid kid key fits free = record {
    active_bound = (
      active_bound.0,
      ground (arith, lookup-insert kid r.active key r.keys, same_iff kid r.active, active_bound.1),
    );
    entries_fit =
        λ j k e. ground (arith, lookup-insert kid j key r.keys, same_iff kid j, entries_fit j k);
    maps_agree = λ j.
        ground
          (arith, lookup-insert kid j key r.keys, lookup-insert kid j key r.raw_keys, maps_agree j);
  }

  deleted-IsValid :
      (kid : Bytes)
      → same kid r.active ≡ false
      → IsValid (record r { keys = delete kid r.keys; raw_keys = delete kid r.raw_keys })
  deleted-IsValid kid other = record {
    active_bound =
        (active_bound.0, ground (arith, lookup-delete kid r.active r.keys, active_bound.1));
    entries_fit = λ j k e. ground (arith, lookup-delete kid j r.keys, entries_fit j k);
    maps_agree = λ j.
        ground (arith, lookup-delete kid j r.keys, lookup-delete kid j r.raw_keys, maps_agree j);
  }

  activated-IsValid : (kid : Bytes) → has kid r.keys ≡ true → IsValid (record r { active = kid })
  activated-IsValid kid bound = record {
    active_bound = has-lookup kid r.keys bound;
    entries_fit = entries_fit;
    maps_agree = maps_agree;
  }

  step-IsValid : (c : Call) → IsValid (step r c).0
  unfolding step
  step-IsValid (call_add kid key) = elim (add_cases r kid key) [
    | inl same_ring ↦ rw same_ring v
    | inr (fits, free, e) ↦ rw e (inserted-IsValid kid key fits free)
  ]
  step-IsValid (call_remove kid) = elim (remove_cases r kid) [
    | inl same_ring ↦ rw same_ring v
    | inr (other, e) ↦ rw e (deleted-IsValid kid other)
  ]
  step-IsValid (call_set_active kid) = elim (set_active_cases r kid) [
    | inl same_ring ↦ rw same_ring v
    | inr (bound, e) ↦ rw e (activated-IsValid kid bound)
  ]

run_from-IsValid : (cs : List Call) (r : KeyRing) → IsValid r → IsValid (run r cs)
unfolding run
run_from-IsValid [] r v = v
run_from-IsValid (c ∷ cs) r v = run_from-IsValid cs (step r c).0 (step-IsValid r v c)

singleton-IsValid :
    (kid key : Bytes)
    → Fits kid key
    → IsValid (record { active = kid; keys = (kid, key) ∷ []; raw_keys = (kid, key) ∷ [] })
unfolding lookup
singleton-IsValid kid key fits = record {
  active_bound = (key, rw (same_self kid) refl);
  entries_fit = λ j k e. ground (arith, same_iff kid j);
  maps_agree = λ j. refl;
}

new_key_ring_cases :
    (kid key : Bytes) {r : KeyRing}
    → new_key_ring kid key ≡ ok r
    → Fits kid key
      × (r ≡ record { active = kid; keys = (kid, key) ∷ []; raw_keys = (kid, key) ∷ [] })
unfolding new_key_ring valid_kid
new_key_ring_cases kid key e = ground (arith, new_gcm_32 key)

-- Whatever sequence of `Add`, `Remove` and `SetActive` is called on a new ring, and whichever of
-- the calls fail, the active kid has a key, every kid has 1 to 64 bytes and every key 32, and the
-- two maps of the ring agree.
pub run-IsValid :
    (kid key : Bytes) (r : KeyRing) (cs : List Call)
    → new_key_ring kid key ≡ ok r
    → IsValid (run r cs)
run-IsValid kid key r cs e =
    let (fits, shape) = new_key_ring_cases kid key e in
    run_from-IsValid cs r (rw shape (singleton-IsValid kid key fits))
