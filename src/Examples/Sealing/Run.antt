-- ===== src/Examples/Sealing/Run.antt =====
-- What the programs of examples/chacha20_aead, examples/encrypt_field and examples/seal_with_aad
-- print.
use crypt.Base.{
  ◌-◌, ◌≤◌, ◌≡◌, ◌≢◌, refl, [], ◌∷◌, ◌++◌, length, take, drop, arith, length-drop, length-take,
  All-drop,
}
use crypt.Base.Outcome.{Result, ok, err, panic, unsupported_version, slice_front}
use crypt.Wire.{Bytes, IsByte, IsBytes}
use crypt.Wire.Text.{codes}
use crypt.Entropy.{Reader}
use crypt.Entropy.Laws.{draw-enough}
use crypt.Cipher.{Aead}
use crypt.Format.{version_aead_v2}
use crypt.Format.Tokens.{opens-ne-panic}
use crypt.Gcm.Open.{open_token}
use crypt.Gcm.Accepts.{sealer_methods, open_token-ne-panic}
use crypt.Gcm.RoundTrip.{open_token-seal}
use crypt.ChaCha.Open.{open_chacha20}
use crypt.ChaCha.Laws.{open_chacha20-Opens, open_token-open_chacha20, open_chacha20-seal}
use crypt.Examples.Program.{World, text, failure, no_error, failures, print_failure_lem}
use crypt.Examples.Sealing.{
  chacha20_main, encrypt_field_main, app_key, refusal, print_refusal, issue_session_for,
  open_session_for, seal_with_aad_main,
}

-- The tampered token of the first program.
abbrev with_xx : Bytes → Bytes
with_xx ct = take (length ct - 2) ct ++ codes "XX"

-- With 44 bytes in the random source the program ends without an error and prints a token, the
-- plaintext, ErrUnsupportedVersion for `Open` on the token, and what `OpenChaCha20` says of the
-- token with two other characters at its end, if that is an error.
pub chacha20_main-prints :
    (c gcm : Aead) (r : Reader)
    → IsBytes r.content
    → 44 ≤ length r.content
    → (ct : Bytes) × (r' : Reader) × (chacha20_main c gcm (record { random = r; printed = [] }) ≡ (
      ok tt,
      record {
        random = r';
        printed =
            (text ct ∷ text (codes "hello via chacha20") ∷ failure unsupported_version ∷ [])
            ++ failures (open_chacha20 c (take 32 r.content) (with_xx ct) (codes "ctx"));
      },
    ))
unfolding chacha20_main
chacha20_main-prints c gcm r hr enough =
    let key : Bytes = take 32 r.content in
    let hk : length key ≡ 32 = omega (arith, length-take 32 r.content) in
    let r1 : Reader = record r { content = drop 32 r.content } in
    let (ct, sealed, opened) =
      open_chacha20-seal c key (codes "hello via chacha20") (codes "ctx") r1 hk (omega arith)
        (All-drop IsByte 32 r.content hr) (omega (arith, length-drop 32 r.content)) in
    (
      ct,
      record r1 { content = drop 12 r1.content },
      rw
          (
            chacha20_main,
            draw-enough 32 r (omega arith),
            sealed,
            opened,
            open_token-open_chacha20 c gcm key key (codes "ctx") (codes "ctx") ct
                (codes "hello via chacha20") hk opened,
            slice_front (length ct - 2) ct (omega arith),
          )
          (print_failure_lem (open_chacha20 c key (with_xx ct) (codes "ctx")) _ (
            opens-ne-panic c version_aead_v2 key (codes "ctx")
              (open_chacha20-Opens c key (codes "ctx") hk) (with_xx ct))),
    )

abbrev with_x : Bytes → Bytes
with_x ct = take (length ct - 1) ct ++ codes "X"

-- With 12 bytes in the random source the program ends without an error and prints the row, the
-- plaintext, and what `Open` says of the text with another character at its end, if that is an
-- error.
pub encrypt_field_main-prints :
    (gcm : Aead) (r : Reader)
    → IsBytes r.content
    → 12 ≤ length r.content
    → (encrypted : Bytes) × (encrypt_field_main gcm (record { random = r; printed = [] }) ≡ (
      ok tt,
      record {
        random = record r { content = drop 12 r.content };
        printed =
            (text (codes "prtn_001") ∷ text encrypted ∷ text (codes "sk_live_4242deadbeef") ∷ [])
            ++ failures (open_token gcm app_key (with_x encrypted) []);
      },
    ))
unfolding encrypt_field_main
encrypt_field_main-prints gcm r hr enough =
    let (sealer, made, seals, opens) = sealer_methods gcm app_key refl in
    let (token, sealed, _, opened) =
      open_token-seal gcm app_key (codes "sk_live_4242deadbeef") [] r refl (omega arith) hr
        (omega arith) in
    (
      token,
      rw
          (
            encrypt_field_main,
            made,
            seals (codes "sk_live_4242deadbeef") [] r,
            sealed,
            opens token [],
            opened,
            slice_front (length token - 1) token (omega arith),
            opens (with_x token) [],
          )
          (print_failure_lem (open_token gcm app_key (with_x token) []) _
            (open_token-ne-panic gcm app_key [] (with_x token))),
    )

print_refusal_lem :
    (m : Result Bytes) (w : World)
    → m ≢ panic
    → print_refusal m w ≡ (ok tt, record w { printed = w.printed ++ refusal m })
print_refusal_lem (ok pt) w calm = refl
print_refusal_lem (err e) w calm = refl
print_refusal_lem panic w calm = absurd (calm refl)

-- With 12 bytes in the random source the program ends without a panic and prints a token, what
-- alice reads and that there is no error, and the error of bob's attempt and whether it is
-- ErrTampered.
pub seal_with_aad_main-prints :
    (gcm : Aead) (r : Reader)
    → IsBytes r.content
    → 12 ≤ length r.content
    → (token : Bytes) × (seal_with_aad_main gcm (record { random = r; printed = [] }) ≡ (
      ok tt,
      record {
        random = record r { content = drop 12 r.content };
        printed =
            (text token ∷ text (codes "{\"role\":\"admin\"}") ∷ no_error ∷ [])
            ++ refusal (open_token gcm app_key token (codes "user:bob"));
      },
    ))
unfolding seal_with_aad_main issue_session_for open_session_for
seal_with_aad_main-prints gcm r hr enough =
    let (token, sealed, _, opened) =
      open_token-seal gcm app_key (codes "{\"role\":\"admin\"}") (codes "user:alice") r refl
        (omega arith) hr (omega arith) in
    (
      token,
      rw (seal_with_aad_main, sealed, opened)
          (print_refusal_lem (open_token gcm app_key token (codes "user:bob")) _
            (open_token-ne-panic gcm app_key (codes "user:bob") token)),
    )
