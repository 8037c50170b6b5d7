-- ===== src/KeyRing/Dispatch.antt =====
-- `KeyRing.Open` as a whole: both versions, and every other input.
use crypt.Base.{
  ℕ, suc, ◌≤◌, ◌≡◌, ◌≢◌, refl, sym, ap, ◌∙◌, List, [], ◌∷◌, ◌++◌, length, ltb, ◌==◌, some,
  Bool-cases, Option-cases, inl, inr, false, ◌⊎◌, arith, le→ltb, ==→eq, length-append,
}
use crypt.Base.Outcome.{
  Error, Result-cases, ok, err, panic, first, unsupported_version, invalid_ciphertext,
  ciphertext_too_short,
}
use crypt.Wire.{Bytes}
use crypt.Wire.Base64
use crypt.Cipher.{Aead}
use crypt.Format.{version_aead_v1, version_aead_v3}
use crypt.Format.Sealed.{length-frame}
use crypt.KeyRing.{KeyRing}
use crypt.KeyRing.Invariant.{IsValid}
use crypt.KeyRing.Open.{ring_open, open_version, open_v3, try_kids, kids_active_first}
use crypt.KeyRing.Version3.{SealedByKid, open_v3-ok, open_v3-frame, open_v3-ne-panic}
use crypt.KeyRing.Version1.{
  SealedByOne, Ranges, try_kids-ok, try_kids-ne-panic, try_kids_finds, kids_active_first-IsBound,
  member-kids_active_first,
}
use mathlib.Core.Path.{subst}

module _ (c : Aead) (r : KeyRing) (aad : Bytes) where
  open_version-v1 :
      (order : List Bytes) (raw : Bytes)
      → open_version c r order version_aead_v1 raw aad
        ≡ try_kids c r raw aad (kids_active_first r order)
  unfolding open_version
  open_version-v1 order raw = refl

  pub open_version-v3 :
      (order : List Bytes) (raw : Bytes)
      → open_version c r order version_aead_v3 raw aad ≡ open_v3 c r raw aad
  unfolding open_version
  open_version-v3 order raw = refl

  open_version-other :
      (order : List Bytes) (v : ℕ) (raw : Bytes)
      → (v == version_aead_v1) ≡ false
      → (v == version_aead_v3) ≡ false
      → (e : Error) × (open_version c r order v raw aad ≡ err e)
  unfolding open_version
  open_version-other order v raw h k = (unsupported_version, rw (h, k) refl)

  -- Twenty-nine bytes or more are dispatched on the first.
  pub decoded :
      (order : List Bytes) (token : Bytes) {v : ℕ} {rest : Bytes}
      → Base64.decode Base64.url token ≡ some (v ∷ rest)
      → 28 ≤ length rest
      → ring_open c r order token aad ≡ open_version c r order v (v ∷ rest) aad
  unfolding ring_open first
  decoded order token {v} {rest} good long =
      rw (good, le→ltb (suc (length rest)) 29 (omega arith)) refl

  rejected :
      (order : List Bytes) (token : Bytes)
      → ((e : Error) × (ring_open c r order token aad ≡ err e))
        ⊎ ((v : ℕ) × (rest : Bytes) × (Base64.decode Base64.url token ≡ some (v ∷ rest))
            × (28 ≤ length rest))
  unfolding ring_open first
  rejected order token = elim (Option-cases (Base64.decode Base64.url token)) [
    | inl bad ↦ inl (invalid_ciphertext, rw bad refl)
    | inr (raw, good) ↦ go raw good
  ]
    where
      go :
          (raw : Bytes)
          → Base64.decode Base64.url token ≡ some raw
          → ((e : Error) × (ring_open c r order token aad ≡ err e))
            ⊎ ((v : ℕ) × (rest : Bytes) × (Base64.decode Base64.url token ≡ some (v ∷ rest))
                × (28 ≤ length rest))
      go [] good = inl (ciphertext_too_short, rw good refl)
      go (v ∷ rest) good = elim (Bool-cases (ltb (suc (length rest)) 29)) [
        | inl few ↦ inl (ciphertext_too_short, rw (good, few) refl)
        | inr enough ↦ inr (v, rest, good, ground arith)
      ]

  -- `raw` is a sealing of `plain` that the ring has the key of: by the kid written in it
  -- (version 3), or by any of its keys (version 1).
  abbrev pub SealedInRing : Bytes → Bytes → Type 0
  SealedInRing raw plain = SealedByKid c r raw aad plain ⊎ SealedByOne c r raw aad plain

  opened_version :
      (order : List Bytes) (v : ℕ) (rest plain : Bytes)
      → 28 ≤ length rest
      → open_version c r order v (v ∷ rest) aad ≡ ok plain
      → SealedInRing (v ∷ rest) plain
  opened_version order v [] plain long e = absurd (omega arith)
  opened_version order v (k ∷ tail) plain long e = elim (Bool-cases (v == version_aead_v1)) [
    | inl one ↦ inr (
        try_kids-ok c r aad (v ∷ k ∷ tail) (kids_active_first r order) plain (
          sym (open_version-v1 order (v ∷ k ∷ tail))
          ∙ subst (λ t. open_version c r order t (v ∷ k ∷ tail) aad ≡ ok plain) (==→eq v 1 one) e))
    | inr not_one ↦ elim (Bool-cases (v == version_aead_v3)) [
      | inl three ↦
          let eq : v ≡ version_aead_v3 = ==→eq v 3 three in
          inl (
            subst (λ t. SealedByKid c r (t ∷ k ∷ tail) aad plain) (sym eq)
              (open_v3-ok c r aad k tail plain (
                sym (open_version-v3 order (version_aead_v3 ∷ k ∷ tail))
                ∙ subst (λ t. open_version c r order t (t ∷ k ∷ tail) aad ≡ ok plain) eq e)))
      | inr not_three ↦ cc (open_version-other order v (v ∷ k ∷ tail) not_one not_three).1
    ]
  ]

  -- Whatever the order of iteration, what `KeyRing.Open` returns was sealed with a key of the ring
  -- and the same additional data: by the kid in the token, or, in version 1, by one of the keys.
  ring_open_sound :
      (order : List Bytes) (token plain : Bytes)
      → ring_open c r order token aad ≡ ok plain
      → (raw : Bytes) × (Base64.decode Base64.url token ≡ some raw) × SealedInRing raw plain
  ring_open_sound order token plain h = elim (rejected order token) [
    | inl (e, bad) ↦ cc
    | inr (v, rest, good, long) ↦ (
      v ∷ rest,
      good,
      opened_version order v rest plain long (sym (decoded order token good long) ∙ h),
    )
  ]

  -- A token that decodes to a sealing of version 3, with the same additional data, under the key
  -- that the ring has for the kid in it is opened to the sealed plaintext, whatever the order of
  -- iteration.
  pub ring_open-by_kid :
      (order : List Bytes) (token raw plain : Bytes)
      → Base64.decode Base64.url token ≡ some raw
      → SealedByKid c r raw aad plain
      → ring_open c r order token aad ≡ ok plain
  ring_open-by_kid order token raw plain good s =
      let (kid, key, nonce, bound, lo, hi, hn, shape) = s in
      let body : Bytes = c.seal key nonce plain aad in
      decoded order token (good ∙ ap some shape) (
        omega (
          arith,
          length-append kid (nonce ++ body),
          length-append nonce body,
          c.length-seal key nonce plain aad,
        ))
      ∙ open_version-v3 order _
      ∙ open_v3-frame c r aad (version_aead_v3 ∷ length kid ∷ (kid ++ (nonce ++ body))) plain
          (kid, key, nonce, bound, lo, hi, hn, refl)

  -- On a well-formed ring and in every order of iteration that covers it, a token that decodes to
  -- a sealing of version 1, with the same additional data, under any key of the ring is opened, and
  -- to a plaintext that some key of the ring sealed in that token with that additional data.
  pub ring_open-by_one :
      (order : List Bytes) (token raw plain : Bytes)
      → IsValid r
      → Ranges r order
      → Base64.decode Base64.url token ≡ some raw
      → SealedByOne c r raw aad plain
      → (opened : Bytes) × (ring_open c r order token aad ≡ ok opened)
        × SealedByOne c r raw aad opened
  ring_open-by_one order token raw plain valid ranges good s =
      let (kid, key, bound, (nonce, hn, shape)) = s in
      let kids : List Bytes = kids_active_first r order in
      let (opened, found) =
        try_kids_finds c r aad raw kids kid key plain
          (kids_active_first-IsBound r order ranges valid.active_bound)
          (member-kids_active_first r order kid ranges (key, bound)) bound (nonce, hn, shape) in
      (
        opened,
        decoded order token (good ∙ ap some shape)
              (omega (arith, length-frame c version_aead_v1 key nonce plain aad hn))
            ∙ open_version-v1 order _
            ∙ subst (λ t. try_kids c r t aad kids ≡ ok opened) shape found,
        try_kids-ok c r aad raw kids opened found,
      )

  -- So it is opened to `plain`, if no key of the ring sealed another plaintext in it.
  pub ring_open_one_plain :
      (order : List Bytes) (token raw plain : Bytes)
      → IsValid r
      → Ranges r order
      → Base64.decode Base64.url token ≡ some raw
      → SealedByOne c r raw aad plain
      → ((other : Bytes) → SealedByOne c r raw aad other → other ≡ plain)
      → ring_open c r order token aad ≡ ok plain
  ring_open_one_plain order token raw plain valid ranges good s unique =
      let (opened, opens, sealed) = ring_open-by_one order token raw plain valid ranges good s in
      opens ∙ ap ok (unique opened sealed)

  version_ne_panic :
      (order : List Bytes) (v : ℕ) (rest : Bytes)
      → IsValid r
      → Ranges r order
      → 28 ≤ length rest
      → open_version c r order v (v ∷ rest) aad ≢ panic
  version_ne_panic order v [] valid ranges long e = absurd (omega arith)
  version_ne_panic order v (k ∷ tail) valid ranges long e =
      elim (Bool-cases (v == version_aead_v1)) [
        | inl one ↦
            try_kids-ne-panic c r aad (v ∷ k ∷ tail) (kids_active_first r order)
              (kids_active_first-IsBound r order ranges valid.active_bound)
              (sym (open_version-v1 order (v ∷ k ∷ tail))
                ∙ subst (λ t. open_version c r order t (v ∷ k ∷ tail) aad ≡ panic) (==→eq v 1 one)
                    e)
        | inr not_one ↦ elim (Bool-cases (v == version_aead_v3)) [
          | inl three ↦ open_v3-ne-panic c r aad v k tail (
              sym (open_version-v3 order (v ∷ k ∷ tail))
              ∙ subst (λ t. open_version c r order t (v ∷ k ∷ tail) aad ≡ panic) (==→eq v 3 three)
                  e)
          | inr not_three ↦ cc (open_version-other order v (v ∷ k ∷ tail) not_one not_three).1
        ]
      ]

  -- On a well-formed ring `KeyRing.Open` never panics, whatever the token.
  ring_open-ne-panic :
      (order : List Bytes) (token : Bytes)
      → IsValid r
      → Ranges r order
      → ring_open c r order token aad ≢ panic
  ring_open-ne-panic order token valid ranges h = elim (rejected order token) [
    | inl (e, bad) ↦ cc
    | inr (v, rest, good, long) ↦
        version_ne_panic order v rest valid ranges long (sym (decoded order token good long) ∙ h)
  ]

  -- On a well-formed ring and for every order in which the ring is ranged over, `KeyRing.Open`
  -- answers any token by an error, or by the plaintext that a key of the ring sealed with the same
  -- additional data: by the key of the kid in the token, or, in version 1, by one of the keys.
  pub ring_open-cases :
      (order : List Bytes) (token : Bytes)
      → IsValid r
      → Ranges r order
      → ((e : Error) × (ring_open c r order token aad ≡ err e))
        ⊎ ((plain raw : Bytes) × (ring_open c r order token aad ≡ ok plain)
            × (Base64.decode Base64.url token ≡ some raw)
            × SealedInRing raw plain)
  ring_open-cases order token valid ranges = elim (Result-cases (ring_open c r order token aad)) [
    | inl (plain, opens) ↦
        let (raw, good, sealed) = ring_open_sound order token plain opens in
        inr (plain, raw, opens, good, sealed)
    | inr (inl (e, refused)) ↦ inl (e, refused)
    | inr (inr panicked) ↦ absurd (ring_open-ne-panic order token valid ranges panicked)
  ]
