-- ===== src/Examples/Rotation/Keys.antt =====
-- Which key a reader opens a text with.
use crypt.Base.{◌≡◌, refl, sym, ap, ◌⊎◌, inl, inr, List, [], ◌∷◌, ◌++◌, All, Option, none, some}
use mathlib.Core.Path.{subst}
use crypt.Base.Outcome.{Error, Result, ok, err, Result-cases}
use crypt.Wire.{Bytes}
use crypt.Cipher.{Aead}
use crypt.Gcm.Open.{open_token}
use crypt.Gcm.Accepts.{open_token-ne-panic}
use crypt.Examples.Rotation.{MultiKeyReader, last_error, try_keys, reader_open}

module _ (gcm : Aead) (ciphertext aad : Bytes) where
  -- `Open` refuses the text with the key.
  abbrev pub Refuses : Bytes → Type 0
  Refuses k = (e : Error) × (open_token gcm k ciphertext aad ≡ err e)

  -- The answer is the plaintext of the first key that opens the text.
  abbrev pub Opened : List Bytes → Result Bytes → Type 0
  Opened keys answer =
      (before : List Bytes) × (k : Bytes) × (after : List Bytes) × (plain : Bytes) × (keys
        ≡ before ++ (k ∷ after))
      × All Refuses before
      × (open_token gcm k ciphertext aad ≡ ok plain)
      × (answer ≡ ok plain)

  -- Every key refuses the text, and the answer is an error.
  abbrev pub Refused : List Bytes → Result Bytes → Type 0
  Refused keys answer = All Refuses keys × ((e : Error) × (answer ≡ err e))

  behind :
      (k : Bytes) (keys : List Bytes) (answer : Result Bytes)
      → Refuses k
      → Opened keys answer ⊎ Refused keys answer
      → Opened (k ∷ keys) answer ⊎ Refused (k ∷ keys) answer
  behind k keys answer refused (inl (before, j, after, plain, shape, all, opens, done)) =
      inl (k ∷ before, j, after, plain, ap (λ t. k ∷ t) shape, (refused, all), opens, done)
  behind k keys answer refused (inr (all, (e, failed))) = inr ((refused, all), (e, failed))

  try_keys-cases :
      (keys : List Bytes) (last : Option Error)
      → Opened keys (try_keys gcm keys last ciphertext aad)
        ⊎ Refused keys (try_keys gcm keys last ciphertext aad)
  unfolding try_keys
  try_keys-cases [] last = inr (tt, (last_error last, refl))
  try_keys-cases (k ∷ keys) last = elim (Result-cases (open_token gcm k ciphertext aad)) [
    | inl (plain, opens) ↦ inl ([], k, keys, plain, refl, tt, opens, rw (try_keys, opens) refl)
    | inr (inl (e, refused)) ↦
        let rest =
          behind k keys (try_keys gcm keys (some e) ciphertext aad) (e, refused)
            (try_keys-cases keys (some e)) in
        let passed : try_keys gcm (k ∷ keys) last ciphertext aad
            ≡ try_keys gcm keys (some e) ciphertext aad =
          rw (try_keys, refused) refl in
        subst (λ a. Opened (k ∷ keys) a ⊎ Refused (k ∷ keys) a) (sym passed) rest
    | inr (inr bad) ↦ absurd (open_token-ne-panic gcm k aad ciphertext bad)
  ]

  -- A reader answers by the plaintext of the first of its keys that opens the text, or by an error
  -- where all of them refuse it, and never panics.
  pub reader_open-cases :
      (m : MultiKeyReader)
      → Opened m.keys (reader_open gcm m ciphertext aad)
        ⊎ Refused m.keys (reader_open gcm m ciphertext aad)
  unfolding reader_open
  reader_open-cases m = try_keys-cases m.keys none
