-- ===== src/Format/Accepts.antt =====
-- The two steps of an opening function on the decoded bytes: what they accept, and that they
-- never panic.
use crypt.Base.{
  ℕ, ◌≤◌, ◌≡◌, ◌≢◌, ◌↔◌, refl, sym, ap, ◌∙◌, ◌∷◌, ◌++◌, length, arith, Option, none, some, take,
  drop, length-take, take-append-drop, length-append,
}
use crypt.Base.Outcome.{Result, ok, err, panic, or_fail, ◌>>◌, bind-returns, tampered, Error}
use crypt.Wire.{Bytes}
use crypt.Cipher.{Aead}
use crypt.Format.{check_frame, open_frame}
use crypt.Format.Layout.{
  nonce_of, body_of, open_frame_lem, open_frame-frame, check_frame_passes, check_frame_passed,
  check_frame-ne-panic,
}
use mathlib.Core.Path.{subst}

abbrev pub read_frame : Aead → ℕ → Bytes → Bytes → Bytes → Result Bytes
read_frame c version key raw aad = check_frame version raw >> open_frame c key raw aad

-- The bytes that a frame of `plain` under `nonce` has.
abbrev pub frame : Aead → ℕ → Bytes → Bytes → Bytes → Bytes → Bytes
frame c version key nonce plain aad = version ∷ (nonce ++ c.seal key nonce plain aad)

-- A sealing under the key and the additional data has the bytes `raw`.
abbrev pub SealedAs : Aead → ℕ → Bytes → Bytes → Bytes → Bytes → Type 0
SealedAs c version key raw aad plain =
    (nonce : Bytes) × (length nonce ≡ 12) × (raw ≡ frame c version key nonce plain aad)

pub or_fail-ok {ℓ} :
    {A : Type ℓ} (o : Option A) (e : Error) {a : A} → or_fail o e ≡ ok a → o ≡ some a
or_fail-ok none e h = cc
or_fail-ok (some b) e h = cc

pub or_fail-ne-panic {ℓ} : {A : Type ℓ} (o : Option A) (e : Error) → or_fail o e ≢ panic
or_fail-ne-panic none e h = cc
or_fail-ne-panic (some b) e h = cc

module _ (c : Aead) (version : ℕ) (key aad : Bytes) where
  opened :
      (rest plain : Bytes)
      → 28 ≤ length rest
      → open_frame c key (version ∷ rest) aad ≡ ok plain
      → SealedAs c version key (version ∷ rest) aad plain
  opened rest plain h e =
      let seen : c.open_ key (take 12 rest) (drop 12 rest) aad ≡ some plain =
        or_fail-ok _ tampered (sym (open_frame_lem c key (version ∷ rest) aad (omega arith)) ∙ e) in
      (
        take 12 rest,
        omega (arith, length-take 12 rest),
        rw (c.seal-open key (take 12 rest) (drop 12 rest) aad plain seen, take-append-drop 12 rest)
            refl,
      )

  pub read_frame-ok :
      (raw plain : Bytes)
      → read_frame c version key raw aad ≡ ok plain
      → SealedAs c version key raw aad plain
  read_frame-ok raw plain e =
      let (_, passed, e') =
        bind-returns (check_frame version raw) (λ _. open_frame c key raw aad) e in
      let (rest, shape, long) = check_frame_passed version raw passed in
      subst (λ t. SealedAs c version key t aad plain) (sym shape)
        (opened rest plain long (subst (λ t. open_frame c key t aad ≡ ok plain) shape e'))

  pub read_frame-frame :
      (nonce plain : Bytes)
      → length nonce ≡ 12
      → read_frame c version key (frame c version key nonce plain aad) aad ≡ ok plain
  read_frame-frame nonce plain h =
      let body : Bytes = c.seal key nonce plain aad in
      rw
        (
          check_frame_passes version version (nonce ++ body) refl
              (omega (arith, length-append nonce body, c.length-seal key nonce plain aad)),
          open_frame-frame c key version nonce body aad h,
          c.open-seal key nonce plain aad,
        )
        refl

  pub read_frame_iff :
      (raw plain : Bytes)
      → (read_frame c version key raw aad ≡ ok plain) ↔ SealedAs c version key raw aad plain
  read_frame_iff raw plain = (
    read_frame-ok raw plain,
    λ s.
        subst (λ t. read_frame c version key t aad ≡ ok plain) (sym s.2)
          (read_frame-frame s.0 plain s.1),
  )

  -- Behind the version and 28 bytes or more, the cipher alone decides.
  pub read_frame-behind :
      (rest : Bytes)
      → 28 ≤ length rest
      → read_frame c version key (version ∷ rest) aad
        ≡ or_fail (c.open_ key (take 12 rest) (drop 12 rest) aad) tampered
  read_frame-behind rest h =
      rw
        (
          check_frame_passes version version rest refl h,
          open_frame_lem c key (version ∷ rest) aad (omega arith),
        )
        refl

  pub read_frame-ne-panic : (raw : Bytes) → read_frame c version key raw aad ≢ panic
  read_frame-ne-panic raw = go raw (check_frame version raw) refl (check_frame-ne-panic version raw)
    where
      go :
          (raw : Bytes) (m : Result (Unit {0}))
          → check_frame version raw ≡ m
          → m ≢ panic
          → (m >> open_frame c key raw aad) ≢ panic
      go raw panic e np = λ _. np refl
      go raw (err x) e np = λ h. cc
      go raw (ok tt) e np =
          let (rest, shape, long) = check_frame_passed version raw e in
          λ h.
            or_fail-ne-panic (c.open_ key (nonce_of raw) (body_of raw) aad) tampered
              (sym (open_frame_lem c key raw aad (omega (arith, ap length shape))) ∙ h)
