-- ===== src/Gcm/Accepts.antt =====
-- `Open`, and the methods of `Sealer`, on any input.
use crypt.Base.{◌≡◌, ◌≢◌, ◌↔◌, refl, length, arith, Bool-cases, inl, inr, ◌==◌, ==→eq, eq→==}
use crypt.Base.Outcome.{ok, err, panic, invalid_key, tampered}
use crypt.Wire.{Bytes}
use crypt.Entropy.{Reader}
use crypt.Cipher.{Aead, new_gcm_32}
use crypt.Format.{version_aead_v1}
use crypt.Format.Tokens.{IsTokenOf, IsForged, Opens, opens_iff, opens-ne-panic, opens_tampered_iff}
use crypt.Gcm.Seal.{seal, seal_with_nonce, pick_nonce}
use crypt.Gcm.Open.{open_token}
use crypt.Gcm.Sealer.{Sealer, new_sealer, sealer_seal, sealer_open}

module _ (c : Aead) (key aad : Bytes) where
  pub open_token-Opens :
      length key ≡ 32 → Opens c version_aead_v1 key aad (λ token. open_token c key token aad)
  unfolding open_token
  open_token-Opens h = record {
    on_decoded = λ token raw e. rw (h, e, new_gcm_32 key h) refl;
    on_undecodable = λ token e. rw (h, e) refl;
  }

  open_token-bad_key :
      (token : Bytes) → length key ≢ 32 → open_token c key token aad ≡ err invalid_key
  unfolding open_token
  open_token-bad_key token h = ground arith

  -- `Open` returns `plain` exactly if the key has 32 bytes and the token decodes to the bytes of a
  -- version 1 sealing of `plain`, under some nonce, with this key and this additional data.
  pub open_token_iff :
      (token plain : Bytes)
      → (open_token c key token aad ≡ ok plain)
        ↔ ((length key ≡ 32) × IsTokenOf c version_aead_v1 key aad token plain)
  open_token_iff token plain = (
    λ e. elim (Bool-cases (length key == 32)) [
      | inr no_key ↦ cc (open_token-bad_key token (λ h. cc (eq→== _ _ h)))
      | inl key_32 ↦
          let h : length key ≡ 32 = ==→eq _ _ key_32 in
          (h, (opens_iff c version_aead_v1 key aad (open_token-Opens h) token plain).0 e)
    ],
    λ (h, s). (opens_iff c version_aead_v1 key aad (open_token-Opens h) token plain).1 s,
  )

  -- `Open` answers `ErrTampered` exactly if the key has 32 bytes and the token decodes to 29 bytes
  -- or more behind version 1 that are the bytes of no sealing with this key and additional data.
  pub open_token_tampered_iff :
      (token : Bytes)
      → (open_token c key token aad ≡ err tampered)
        ↔ ((length key ≡ 32) × IsForged c version_aead_v1 key aad token)
  open_token_tampered_iff token = (
    λ e. elim (Bool-cases (length key == 32)) [
      | inr no_key ↦ cc (open_token-bad_key token (λ h. cc (eq→== _ _ h)))
      | inl key_32 ↦
          let h : length key ≡ 32 = ==→eq _ _ key_32 in
          (h, (opens_tampered_iff c version_aead_v1 key aad (open_token-Opens h) token).0 e)
    ],
    λ (h, s). (opens_tampered_iff c version_aead_v1 key aad (open_token-Opens h) token).1 s,
  )

  -- `Open` never panics: no slice of what a token decodes to is out of range, and the cipher is
  -- never given a nonce of another length.
  pub open_token-ne-panic : (token : Bytes) → open_token c key token aad ≢ panic
  open_token-ne-panic token e = elim (Bool-cases (length key == 32)) [
    | inr no_key ↦ cc (open_token-bad_key token (λ h. cc (eq→== _ _ h)))
    | inl key_32 ↦
        opens-ne-panic c version_aead_v1 key aad (open_token-Opens (==→eq _ _ key_32)) token e
  ]

-- A key of 32 bytes makes a `Sealer`, and its methods do what `Seal` and `Open` do with the key,
-- on every input and source.
pub sealer_methods :
    (c : Aead) (key : Bytes)
    → length key ≡ 32
    → (s : Sealer) × (new_sealer key ≡ ok s)
      × ((plain aad : Bytes) (r : Reader) → sealer_seal c s plain aad r ≡ seal c key plain aad r)
      × ((token aad : Bytes) → sealer_open c s token aad ≡ open_token c key token aad)
unfolding new_sealer sealer_seal sealer_open seal seal_with_nonce pick_nonce open_token
sealer_methods c key h = (
  record { gcm = key },
  rw (h, new_gcm_32 key h) refl,
  λ plain aad r. rw (h, new_gcm_32 key h) refl,
  λ token aad. rw (h, new_gcm_32 key h) refl,
)
