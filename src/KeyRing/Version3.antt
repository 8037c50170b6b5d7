-- ===== src/KeyRing/Version3.antt =====
-- Tokens of version 3, which carry the kid of their key.
use crypt.Base.{
  ℕ, suc, ◌+◌, ◌≤◌, ◌≡◌, ◌≢◌, refl, sym, ap, ◌∙◌, [], ◌∷◌, ◌++◌, length, ltb, ◌||◌, arith, le→ltb,
  Option, none, some, Bool-cases, inl, inr, length-append, length-take, length-drop, take, drop,
  take-append-drop, ◌⊎◌, append_assoc,
}
use crypt.Base.Outcome.{
  Error, ok, err, panic, or_fail, ◌>>=◌, first, slice_from, slice-append, slice_from-append,
  tampered, ciphertext_too_short, invalid_ciphertext,
}
use crypt.Wire.{Bytes}
use crypt.Cipher.{Aead, open_with, open_with_12}
use crypt.Format.{version_aead_v3}
use crypt.Format.Accepts.{or_fail-ok, or_fail-ne-panic}
use crypt.Assoc.{lookup}
use crypt.KeyRing.{KeyRing}
use crypt.KeyRing.Open.{open_v3}
use mathlib.Core.Path.{subst}

-- The bytes of a token of version 3.
abbrev pub kid_frame : Aead → Bytes → Bytes → Bytes → Bytes → Bytes → Bytes
kid_frame c kid key nonce plain aad =
    version_aead_v3 ∷ length kid ∷ (kid ++ (nonce ++ c.seal key nonce plain aad))

-- `raw` is a sealing of `plain` by the key that the ring has under the kid written in it.
abbrev pub SealedByKid : Aead → KeyRing → Bytes → Bytes → Bytes → Type 0
SealedByKid c r raw aad plain =
    (kid : Bytes) × (key : Bytes) × (nonce : Bytes) × (lookup kid r.keys ≡ some key)
    × (1 ≤ length kid)
    × (length kid ≤ 64)
    × (length nonce ≡ 12)
    × (raw ≡ kid_frame c kid key nonce plain aad)

module _ (c : Aead) (r : KeyRing) (aad : Bytes) where
  -- The parts of a frame are what the function cuts out of it.
  pub open_v3-parts :
      (v k : ℕ) (kid nonce body : Bytes)
      → length kid ≡ k
      → 1 ≤ k
      → k ≤ 64
      → length nonce ≡ 12
      → 16 ≤ length body
      → open_v3 c r (v ∷ k ∷ (kid ++ (nonce ++ body))) aad ≡ (
          or_fail (lookup kid r.keys) tampered >>= λ gcm.
          or_fail (c.open_ gcm nonce body aad) tampered)
  unfolding open_v3 first
  open_v3-parts v k kid nonce body hk lo hi hn hb =
      let rest : Bytes = kid ++ (nonce ++ body) in
      let long : length rest ≡ k + 12 + length body =
        omega (arith, length-append kid (nonce ++ body), length-append nonce body) in
      rw
        (
          le→ltb (suc (suc (length rest))) 2 (omega arith),
          slice_from-append 1 (v ∷ []) (k ∷ rest) refl,
          le→ltb k 1 lo,
          le→ltb 64 k hi,
          le→ltb (suc (suc (length rest))) (2 + k + 12 + 16) (omega arith),
          slice-append 2 (2 + k) (v ∷ k ∷ []) kid (nonce ++ body) refl (omega arith),
          slice-append (2 + k) (2 + k + 12) (v ∷ k ∷ kid) nonce body (omega arith) (omega arith),
          slice-tail,
        )
        (opened (lookup kid r.keys))
    where
      slice-tail : slice_from (2 + k + 12) (v ∷ k ∷ (kid ++ (nonce ++ body))) ≡ ok body
      slice-tail =
          subst (λ t. slice_from (2 + k + 12) (v ∷ k ∷ t) ≡ ok body) (append_assoc kid nonce body)
            (slice_from-append (2 + k + 12) (v ∷ k ∷ (kid ++ nonce)) body
              (omega (arith, length-append kid nonce)))

      opened :
          (entry : Option Bytes)
          → (or_fail entry tampered >>= λ gcm.
              open_with c gcm nonce body aad >>= λ plain. or_fail plain tampered)
            ≡ (or_fail entry tampered >>= λ gcm. or_fail (c.open_ gcm nonce body aad) tampered)
      opened none = refl
      opened (some gcm) = rw (open_with_12 c gcm nonce body aad hn) refl

  refused :
      (v k : ℕ) (tail : Bytes)
      → ((e : Error) × (open_v3 c r (v ∷ k ∷ tail) aad ≡ err e))
        ⊎ ((1 ≤ k) × (k ≤ 64) × (k + 28 ≤ length tail))
  unfolding open_v3 first
  refused v k tail =
      rw
        (
          le→ltb (suc (suc (length tail))) 2 (omega arith),
          slice_from-append 1 (v ∷ []) (k ∷ tail) refl,
        )
        (elim (Bool-cases (ltb k 1 || ltb 64 k)) [
          | inl bad ↦ inl (invalid_ciphertext, rw bad refl)
          | inr good ↦ elim (Bool-cases (ltb (suc (suc (length tail))) (2 + k + 12 + 16))) [
            | inl few ↦ inl (ciphertext_too_short, rw (good, few) refl)
            | inr enough ↦ inr (ground arith, ground arith, ground arith)
          ]
        ])

  -- The three parts behind the length of the kid.
  abbrev nonce_in : ℕ → Bytes → Bytes
  nonce_in k tail = take 12 (drop k tail)

  abbrev body_in : ℕ → Bytes → Bytes
  body_in k tail = drop 12 (drop k tail)

  tail-parts : (k : ℕ) (tail : Bytes) → take k tail ++ (nonce_in k tail ++ body_in k tail) ≡ tail
  tail-parts k tail = rw (take-append-drop 12 (drop k tail), take-append-drop k tail) refl

  open_v3-tail :
      (v k : ℕ) (tail : Bytes)
      → 1 ≤ k
      → k ≤ 64
      → k + 28 ≤ length tail
      → open_v3 c r (v ∷ k ∷ tail) aad ≡ (
          or_fail (lookup (take k tail) r.keys) tampered >>= λ gcm.
          or_fail (c.open_ gcm (nonce_in k tail) (body_in k tail) aad) tampered)
  open_v3-tail v k tail lo hi long =
      ap (λ t. open_v3 c r (v ∷ k ∷ t) aad) (sym (tail-parts k tail))
      ∙ open_v3-parts v k (take k tail) (nonce_in k tail) (body_in k tail)
          (omega (arith, length-take k tail)) lo hi
          (omega (arith, length-take 12 (drop k tail), length-drop k tail))
          (omega (arith, length-drop 12 (drop k tail), length-drop k tail))

  pub open_v3-ok :
      (k : ℕ) (tail plain : Bytes)
      → open_v3 c r (version_aead_v3 ∷ k ∷ tail) aad ≡ ok plain
      → SealedByKid c r (version_aead_v3 ∷ k ∷ tail) aad plain
  open_v3-ok k tail plain e = elim (refused version_aead_v3 k tail) [
    | inl (x, bad) ↦ cc
    | inr (lo, hi, long) ↦ go lo hi long (lookup (take k tail) r.keys) refl
  ]
    where
      go :
          1 ≤ k
          → k ≤ 64
          → k + 28 ≤ length tail
          → (entry : Option Bytes) → lookup (take k tail) r.keys ≡ entry
          → SealedByKid c r (version_aead_v3 ∷ k ∷ tail) aad plain
      go lo hi long none m = cc (rw m at (open_v3-tail version_aead_v3 k tail lo hi long))
      go lo hi long (some key) m =
          let cut = rw m at (open_v3-tail version_aead_v3 k tail lo hi long) in
          let seen : c.open_ key (nonce_in k tail) (body_in k tail) aad ≡ some plain =
            or_fail-ok _ tampered (sym cut ∙ e) in
          let size : length (take k tail) ≡ k = omega (arith, length-take k tail) in
          (
            take k tail,
            key,
            nonce_in k tail,
            m,
            omega arith,
            omega arith,
            omega (arith, length-take 12 (drop k tail), length-drop k tail),
            rw
                (
                  size,
                  c.seal-open key (nonce_in k tail) (body_in k tail) aad plain seen,
                  tail-parts k tail,
                )
                refl,
          )

  pub open_v3-frame :
      (raw plain : Bytes) → SealedByKid c r raw aad plain → open_v3 c r raw aad ≡ ok plain
  open_v3-frame raw plain (kid, key, nonce, bound, lo, hi, hn, shape) =
      rw
        (
          shape,
          open_v3-parts version_aead_v3 (length kid) kid nonce (c.seal key nonce plain aad) refl lo
              hi hn (omega (arith, c.length-seal key nonce plain aad)),
          bound,
          c.open-seal key nonce plain aad,
        )
        refl

  pub open_v3-ne-panic : (v k : ℕ) (tail : Bytes) → open_v3 c r (v ∷ k ∷ tail) aad ≢ panic
  open_v3-ne-panic v k tail e = elim (refused v k tail) [
    | inl (x, bad) ↦ cc
    | inr (lo, hi, long) ↦
        ne_panic (lookup (take k tail) r.keys) (sym (open_v3-tail v k tail lo hi long) ∙ e)
  ]
    where
      ne_panic :
          (entry : Option Bytes)
          → (or_fail entry tampered >>= λ gcm.
              or_fail (c.open_ gcm (nonce_in k tail) (body_in k tail) aad) tampered)
            ≢ panic
      ne_panic none = λ h. cc
      ne_panic (some gcm) = or_fail-ne-panic _ tampered
