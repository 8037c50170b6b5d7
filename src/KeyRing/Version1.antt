-- ===== src/KeyRing/Version1.antt =====
-- Tokens of version 1, which carry no kid: the loop over the keys of the ring.
use crypt.Base.{
  ◌≡◌, ◌≢◌, refl, sym, ap, ◌∙◌, List, [], ◌∷◌, none, some, same, same_iff, if◌then◌else◌, Bool,
  Bool-cases, Option-cases, inl, inr, true, false, All, arith,
}
use crypt.Base.Outcome.{Error, ok, err, panic, Result-cases}
use crypt.Format.{check_frame}
use crypt.Wire.{Bytes}
use crypt.Cipher.{Aead}
use crypt.Format.{version_aead_v1}
use crypt.Format.Accepts.{SealedAs, read_frame, read_frame_iff, read_frame-ne-panic}
use crypt.Assoc.{lookup}
use crypt.KeyRing.{KeyRing}
use crypt.KeyRing.Open.{open_v1_with_aead, others, kids_active_first, try_kids}

unfoldable pub member : Bytes → List Bytes → Bool
member kid [] = false
member kid (j ∷ js) = if same j kid then true else member kid js

-- The ring has a key under the kid.
abbrev pub IsBound : KeyRing → Bytes → Type 0
IsBound r kid = (key : Bytes) × (lookup kid r.keys ≡ some key)

-- `order` lists the kids of the map, each of them and no other.
pub record Ranges (r : KeyRing) (order : List Bytes) : Type 0 where
  pub only_keys : All (IsBound r) order
  pub every_key : (kid : Bytes) → IsBound r kid → member kid order ≡ true

-- `raw` is a sealing of `plain`, of version 1, by some key of the ring.
abbrev pub SealedByOne : Aead → KeyRing → Bytes → Bytes → Bytes → Type 0
SealedByOne c r raw aad plain =
    (kid : Bytes) × (key : Bytes) × (lookup kid r.keys ≡ some key)
    × SealedAs c version_aead_v1 key raw aad plain

module _ (c : Aead) (r : KeyRing) (aad raw : Bytes) where
  with_key :
      (key : Bytes)
      → open_v1_with_aead c (some key) raw aad ≡ read_frame c version_aead_v1 key raw aad
  unfolding open_v1_with_aead
  with_key key = refl

  with_none : (plain : Bytes) → open_v1_with_aead c none raw aad ≢ ok plain
  unfolding open_v1_with_aead
  with_none plain h = elim (Result-cases (check_frame version_aead_v1 raw)) [
    | inl (u, e) ↦ cc (rw e at h)
    | inr (inl (x, e)) ↦ cc (rw e at h)
    | inr (inr e) ↦ cc (rw e at h)
  ]

  -- What the loop does with one kid, by the answer for that kid.
  try_ok :
      (kid : Bytes) (kids : List Bytes) {plain : Bytes}
      → open_v1_with_aead c (lookup kid r.keys) raw aad ≡ ok plain
      → try_kids c r raw aad (kid ∷ kids) ≡ ok plain
  unfolding try_kids
  try_ok kid kids e = rw (e, try_kids) refl

  try_err :
      (kid : Bytes) (kids : List Bytes) {x : Error}
      → open_v1_with_aead c (lookup kid r.keys) raw aad ≡ err x
      → try_kids c r raw aad (kid ∷ kids) ≡ try_kids c r raw aad kids
  unfolding try_kids
  try_err kid kids e = rw (e, try_kids) refl

  try_panic :
      (kid : Bytes) (kids : List Bytes)
      → open_v1_with_aead c (lookup kid r.keys) raw aad ≡ panic
      → try_kids c r raw aad (kid ∷ kids) ≡ panic
  unfolding try_kids
  try_panic kid kids e = rw (e, try_kids) refl

  opened_by :
      (kid plain : Bytes)
      → open_v1_with_aead c (lookup kid r.keys) raw aad ≡ ok plain
      → SealedByOne c r raw aad plain
  opened_by kid plain e = elim (Option-cases (lookup kid r.keys)) [
    | inl m ↦ absurd (with_none plain (rw m at e))
    | inr (key, m) ↦ (
      kid,
      key,
      m,
      (read_frame_iff c version_aead_v1 key aad raw plain).0 (sym (with_key key) ∙ rw m at e),
    )
  ]

  -- What the loop finds is a sealing by some key of the ring.
  pub try_kids-ok :
      (kids : List Bytes) (plain : Bytes)
      → try_kids c r raw aad kids ≡ ok plain
      → SealedByOne c r raw aad plain
  try_kids-ok [] plain h = unfold try_kids in cc
  try_kids-ok (kid ∷ kids) plain h =
      elim (Result-cases (open_v1_with_aead c (lookup kid r.keys) raw aad)) [
        | inl (p, e) ↦ opened_by kid plain (e ∙ sym (try_ok kid kids e) ∙ h)
        | inr (inl (x, e)) ↦ try_kids-ok kids plain (sym (try_err kid kids e) ∙ h)
        | inr (inr e) ↦ cc (try_panic kid kids e)
      ]

  bound-ne-panic :
      (kid : Bytes) → IsBound r kid → open_v1_with_aead c (lookup kid r.keys) raw aad ≢ panic
  bound-ne-panic kid (key, m) e =
      read_frame-ne-panic c version_aead_v1 key aad raw (sym (with_key key) ∙ rw m at e)

  pub try_kids-ne-panic :
      (kids : List Bytes) → All (IsBound r) kids → try_kids c r raw aad kids ≢ panic
  try_kids-ne-panic [] b h = unfold try_kids in cc
  try_kids-ne-panic (kid ∷ kids) (b, bs) h =
      elim (Result-cases (open_v1_with_aead c (lookup kid r.keys) raw aad)) [
        | inl (p, e) ↦ cc (try_ok kid kids e)
        | inr (inl (x, e)) ↦ try_kids-ne-panic kids bs (sym (try_err kid kids e) ∙ h)
        | inr (inr e) ↦ bound-ne-panic kid b e
      ]

  -- If a kid of the list has a key that sealed `raw`, the loop finds a plaintext.
  pub try_kids_finds :
      (kids : List Bytes) (kid key plain : Bytes)
      → All (IsBound r) kids
      → member kid kids ≡ true
      → lookup kid r.keys ≡ some key
      → SealedAs c version_aead_v1 key raw aad plain
      → (found : Bytes) × (try_kids c r raw aad kids ≡ ok found)
  unfolding member
  try_kids_finds [] kid key plain bs m bound s = cc
  try_kids_finds (j ∷ js) kid key plain (b, bs) m bound s =
      elim (Result-cases (open_v1_with_aead c (lookup j r.keys) raw aad)) [
        | inl (p, e) ↦ (p, try_ok j js e)
        | inr (inl (x, e)) ↦ elim (Bool-cases (same j kid)) [
          | inl this ↦ cc (
            e,
            ap (λ t. open_v1_with_aead c (lookup t r.keys) raw aad) ((same_iff j kid).0 this),
            ap (λ t. open_v1_with_aead c t raw aad) bound,
            with_key key,
            (read_frame_iff c version_aead_v1 key aad raw plain).1 s,
          )
          | inr later ↦
              let (q, found) = try_kids_finds js kid key plain bs (rw later at m) bound s in
              (q, try_err j js e ∙ found)
        ]
        | inr (inr e) ↦ absurd (bound-ne-panic j b e)
      ]

module _ (r : KeyRing) where
  others-IsBound :
      (active : Bytes) (kids : List Bytes)
      → All (IsBound r) kids
      → All (IsBound r) (others active kids)
  unfolding others
  others-IsBound active [] b = tt
  others-IsBound active (kid ∷ kids) (b, bs) = elim (Bool-cases (same kid active)) [
    | inl e ↦ rw e (others-IsBound active kids bs)
    | inr e ↦ rw e (b, others-IsBound active kids bs)
  ]

  member-others :
      (active kid : Bytes) (kids : List Bytes)
      → same active kid ≡ false
      → member kid kids ≡ true
      → member kid (others active kids) ≡ true
  unfolding others member
  member-others active kid [] h m = cc
  member-others active kid (j ∷ js) h m =
      ground (
        arith,
        same_iff j active,
        same_iff active kid,
        same_iff j kid,
        member-others active kid js h,
      )

  -- The list that the loop walks: every kid of the ring, and only kids that have a key.
  pub kids_active_first-IsBound :
      (order : List Bytes)
      → Ranges r order
      → IsBound r r.active
      → All (IsBound r) (kids_active_first r order)
  unfolding kids_active_first
  kids_active_first-IsBound order ranges b = (b, others-IsBound r.active order ranges.only_keys)

  pub member-kids_active_first :
      (order : List Bytes) (kid : Bytes)
      → Ranges r order
      → IsBound r kid
      → member kid (kids_active_first r order) ≡ true
  unfolding kids_active_first member
  member-kids_active_first order kid ranges b = elim (Bool-cases (same r.active kid)) [
    | inl e ↦ rw e refl
    | inr e ↦ rw e (member-others r.active kid order e (ranges.every_key kid b))
  ]
