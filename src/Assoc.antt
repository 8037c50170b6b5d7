-- ===== src/Assoc.antt =====
-- A Go map from strings to byte strings (`map[string][]byte`, and the ring's map of ciphers bound
-- to their keys), as an association list with what a missing key gives.
use crypt.Base.{
  ◌≡◌, refl, List, [], ◌∷◌, Option, none, some, Bool, true, false, same, same_iff, if◌then◌else◌,
  arith, Bool-cases, inl, inr,
}
use crypt.Wire.{Bytes}

abbrev pub Map : Type 0
Map = List (Bytes × Bytes)

-- `v, ok := m[k]`
unfoldable pub lookup : Bytes → Map → Option Bytes
lookup k [] = none
lookup k ((j, v) ∷ m) = if same j k then some v else lookup k m

-- `_, exists := m[k]`
unfoldable pub has : Bytes → Map → Bool
has k [] = false
has k ((j, v) ∷ m) = if same j k then true else has k m

-- `m[k] = v`
unfoldable pub insert : Bytes → Bytes → Map → Map
insert k v [] = (k, v) ∷ []
insert k v ((j, w) ∷ m) = if same j k then (k, v) ∷ m else (j, w) ∷ insert k v m

-- `delete(m, k)`
unfoldable pub delete : Bytes → Map → Map
delete k [] = []
delete k ((j, w) ∷ m) = let rest = delete k m in if same j k then rest else (j, w) ∷ rest

pub lookup-insert :
    (k j v : Bytes) (m : Map) → lookup j (insert k v m) ≡ (if same k j then some v else lookup j m)
unfolding lookup insert
lookup-insert k j v [] = refl
lookup-insert k j v ((i, w) ∷ m) =
    ground (arith, same_iff k j, same_iff i k, same_iff i j, lookup-insert k j v m)

pub lookup-delete :
    (k j : Bytes) (m : Map) → lookup j (delete k m) ≡ (if same k j then none else lookup j m)
unfolding lookup delete
lookup-delete k j [] = ground arith
lookup-delete k j ((i, w) ∷ m) =
    ground (arith, same_iff k j, same_iff i k, same_iff i j, lookup-delete k j m)

pub has-lookup : (k : Bytes) (m : Map) → has k m ≡ true → (v : Bytes) × (lookup k m ≡ some v)
unfolding has lookup
has-lookup k [] h = cc
has-lookup k ((j, v) ∷ m) h = elim (Bool-cases (same j k)) [
  | inl e ↦ (v, rw e refl)
  | inr e ↦ let (w, found) = has-lookup k m (rw e at h) in (w, rw e found)
]

pub has_missing : (k : Bytes) (m : Map) → has k m ≡ false → lookup k m ≡ none
unfolding has lookup
has_missing k [] h = refl
has_missing k ((j, v) ∷ m) h = ground (arith, has_missing k m)
