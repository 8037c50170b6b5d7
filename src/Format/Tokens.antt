-- ===== src/Format/Tokens.antt =====
-- What the opening functions share, as functions of the token: each decodes it and reads the frame.
use crypt.Base.{
  ℕ, ◌≤◌, ◌≡◌, ◌≢◌, ◌↔◌, refl, sym, ap, ◌∙◌, ◌∷◌, length, none, some, take, drop, Option-cases, inl,
  inr,
}
use crypt.Base.Outcome.{Result, ok, err, panic, invalid_ciphertext, tampered}
use crypt.Wire.{Bytes}
use crypt.Wire.Base64
use crypt.Cipher.{Aead}
use crypt.Format.{check_frame}
use crypt.Format.Layout.{check_frame_passed, check_frame-ne-tampered}
use crypt.Format.Accepts.{
  SealedAs, read_frame, read_frame_iff, read_frame-behind, read_frame-ne-panic,
}
use mathlib.Core.Path.{subst}

module _ (c : Aead) (version : ℕ) (key aad : Bytes) where
  -- The token decodes to the frame of a sealing of `plain`.
  abbrev pub IsTokenOf : Bytes → Bytes → Type 0
  IsTokenOf token plain =
      (raw : Bytes) × (Base64.decode Base64.url token ≡ some raw)
      × SealedAs c version key raw aad plain

  -- The token decodes to a frame of the version, and no sealing has its bytes.
  abbrev pub IsForged : Bytes → Type 0
  IsForged token =
      (rest : Bytes) × (Base64.decode Base64.url token ≡ some (version ∷ rest))
      × (28 ≤ length rest)
      × ((plain : Bytes) → ¬ SealedAs c version key (version ∷ rest) aad plain)

  -- A function that answers as an opening function does.
  pub record Opens (f : Bytes → Result Bytes) : Type 0 where
    pub on_decoded :
        (token raw : Bytes)
        → Base64.decode Base64.url token ≡ some raw
        → f token ≡ read_frame c version key raw aad
    pub on_undecodable :
        (token : Bytes) → Base64.decode Base64.url token ≡ none → f token ≡ err invalid_ciphertext

  forged :
      (raw : Bytes)
      → read_frame c version key raw aad ≡ err tampered
      → (rest : Bytes) × (raw ≡ version ∷ rest)
        × (28 ≤ length rest)
        × ((plain : Bytes) → ¬ SealedAs c version key (version ∷ rest) aad plain)
  forged raw e = go (check_frame version raw) refl
    where
      go :
          (m : Result (Unit {0}))
          → check_frame version raw ≡ m
          → (rest : Bytes) × (raw ≡ version ∷ rest)
            × (28 ≤ length rest)
            × ((plain : Bytes) → ¬ SealedAs c version key (version ∷ rest) aad plain)
      go panic m = absurd (read_frame-ne-panic c version key aad raw (rw m))
      go (err x) m = absurd (check_frame-ne-tampered version raw (m ∙ cc (rw m at e)))
      go (ok tt) m =
          let (rest, shape, long) = check_frame_passed version raw m in
          (
            rest,
            shape,
            long,
            λ plain s. cc (
              e,
              (read_frame_iff c version key aad raw plain).1
                  (subst (λ t. SealedAs c version key t aad plain) (sym shape) s),
            ),
          )

  unsealed :
      (rest : Bytes)
      → 28 ≤ length rest
      → ((plain : Bytes) → ¬ SealedAs c version key (version ∷ rest) aad plain)
      → read_frame c version key (version ∷ rest) aad ≡ err tampered
  unsealed rest long none_fits =
      let behind = read_frame-behind c version key aad rest long in
      elim (Option-cases (c.open_ key (take 12 rest) (drop 12 rest) aad)) [
        | inl e ↦ behind ∙ rw e refl
        | inr (plain, e) ↦ absurd (
            none_fits plain
              ((read_frame_iff c version key aad (version ∷ rest) plain).0 (behind ∙ rw e refl)))
      ]

module _ (c : Aead) (version : ℕ) (key aad : Bytes) {f : Bytes → Result Bytes}
    (opens : Opens c version key aad f) where
  open opens use {on_decoded, on_undecodable}

  pub opens_iff :
      (token plain : Bytes) → (f token ≡ ok plain) ↔ IsTokenOf c version key aad token plain
  opens_iff token plain = (
    λ e. elim (Option-cases (Base64.decode Base64.url token)) [
      | inl bad ↦ cc (on_undecodable token bad)
      | inr (raw, good) ↦ (
        raw,
        good,
        (read_frame_iff c version key aad raw plain).0 (sym (on_decoded token raw good) ∙ e),
      )
    ],
    λ (raw, good, s). on_decoded token raw good ∙ (read_frame_iff c version key aad raw plain).1 s,
  )

  pub opens-ne-panic : (token : Bytes) → f token ≢ panic
  opens-ne-panic token e = elim (Option-cases (Base64.decode Base64.url token)) [
    | inl bad ↦ cc (on_undecodable token bad)
    | inr (raw, good) ↦
        read_frame-ne-panic c version key aad raw (sym (on_decoded token raw good) ∙ e)
  ]

  pub opens_tampered_iff :
      (token : Bytes) → (f token ≡ err tampered) ↔ IsForged c version key aad token
  opens_tampered_iff token = (
    λ e. elim (Option-cases (Base64.decode Base64.url token)) [
      | inl bad ↦ cc (on_undecodable token bad)
      | inr (raw, good) ↦
          let (rest, shape, long, none_fits) =
            forged c version key aad raw (sym (on_decoded token raw good) ∙ e) in
          (rest, good ∙ ap some shape, long, none_fits)
    ],
    λ (rest, good, long, none_fits).
        on_decoded token (version ∷ rest) good ∙ unsealed c version key aad rest long none_fits,
  )
