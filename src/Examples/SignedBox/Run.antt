-- ===== src/Examples/SignedBox/Run.antt =====
-- What the program of examples/asymmetric_encrypt prints.
use crypt.Base.{
  ◌≤◌, ◌≡◌, ◌≢◌, ◌-◌, ◌%◌, replicate, length-append, refl, List, [], ◌∷◌, ◌++◌, true, some, length,
  take, drop, arith, ◌==◌, Bool-cases, inl, inr, length-take, length-drop, All-append, All-drop,
}
use mathlib.Core.Path.{subst}
use crypt.Base.Outcome.{Result, ok, err, panic, slice_front, slice-append, slice_from-append}
use crypt.Wire.{Bytes, IsByte, IsBytes}
use crypt.Wire.Text.{codes}
use crypt.Entropy.{Reader}
use crypt.Entropy.Laws.{draw-enough}
use crypt.Cipher.{Aead}
use crypt.Asymmetric.{Curve}
use crypt.Asymmetric.Seal.{seal_asymmetric, generate_key_pair}
use crypt.Asymmetric.Open.{open_asymmetric}
use crypt.Asymmetric.Accepts.{open_asymmetric_iff}
use crypt.Wire.Base64
use crypt.Wire.Base64.Shape.{length-encode}
use crypt.Asymmetric.RoundTrip.{open_asymmetric-seal_asymmetric}
use crypt.Ed25519.{Scheme, sign_ed25519, verify_ed25519-sign_ed25519}
use crypt.Examples.Program.{Shown, World, text, flag}
use crypt.Examples.SignedBox.{
  padded, tampering, print_tampered, send_sealed, send_signed, signed_box_main,
}

-- What a signature consists of.
signature_bytes :
    (scheme : Scheme) (priv plain sig : Bytes)
    → sign_ed25519 scheme priv plain ≡ ok sig
    → (length sig ≡ 64) × IsBytes sig
unfolding sign_ed25519
signature_bytes scheme priv plain sig signed = elim (Bool-cases (length priv == 64)) [
  | inr bad ↦ cc (rw bad at signed)
  | inl good ↦
      let one : scheme.sign priv plain ≡ sig = cc (rw good at signed) in
      (
        subst (λ (t : Bytes). length t ≡ 64) one (scheme.length-sign priv plain),
        subst IsBytes one (scheme.sign-IsBytes priv plain),
      )
]

abbrev pub message : Bytes
message = codes "only the recipient can read this"

padded_long : (b : Bytes) → length b ≡ 32 → 24 ≤ length (padded b)
padded_long b h = omega (
  arith,
  length-append (Base64.encode Base64.std b) (replicate ((3 - length b % 3) % 3) b'='),
  length-encode Base64.std b,
)

print_tampered_lem :
    (m : Result Bytes) (w : World)
    → m ≢ panic
    → print_tampered m w ≡ (ok tt, record w { printed = w.printed ++ tampering m })
print_tampered_lem (ok pt) w calm = refl
print_tampered_lem (err e) w calm = refl
print_tampered_lem panic w calm = absurd (calm refl)

-- The curve gives every private key of 32 bytes a public key, and a secret with every public key.
module _ (curve : Curve) (c : Aead)
    (public_exists : (k : Bytes)
      → length k ≡ 32
      → (p : Bytes) × (curve.x25519 k curve.basepoint ≡ some p))
    (secret_exists : (a b p : Bytes)
      → length a ≡ 32
      → curve.x25519 b curve.basepoint ≡ some p
      → (s : Bytes) × (curve.x25519 a p ≡ some s)) where
  sealed_for :
      (priv recipient plain : Bytes) (r : Reader)
      → length priv ≡ 32
      → curve.x25519 priv curve.basepoint ≡ some recipient
      → IsBytes plain
      → IsBytes r.content
      → 44 ≤ length r.content
      → (token : Bytes) × (seal_asymmetric curve c recipient plain r
          ≡ (ok token, record r { content = drop 12 (drop 32 r.content) }))
        × (open_asymmetric curve c priv token ≡ ok plain)
  sealed_for priv recipient plain r hk own hp hr enough =
      let drawn : Bytes = take 32 r.content in
      let long : length drawn ≡ 32 = omega (arith, length-take 32 r.content) in
      let (eph, its_public) = public_exists drawn long in
      let (shared, secret) = secret_exists drawn priv recipient long own in
      open_asymmetric-seal_asymmetric curve c priv recipient eph shared plain r hk own its_public
        secret hp hr enough

  -- For the public key of a private key of 32 bytes and with 76 bytes in the random source, the
  -- second part of the program ends without an error, and prints that the sender is the one who
  -- signed, and the message.
  pub send_signed-authentic :
      (scheme : Scheme) (priv recipient plain : Bytes) (r : Reader) (shown : List Shown)
      → length priv ≡ 32
      → curve.x25519 priv curve.basepoint ≡ some recipient
      → IsBytes plain
      → IsBytes r.content
      → 76 ≤ length r.content
      → send_signed curve c scheme recipient priv plain (record { random = r; printed = shown }) ≡ (
        ok tt,
        record {
          random = record r { content = drop 12 (drop 32 (drop 32 r.content)) };
          printed = shown ++ (flag true ∷ text plain ∷ []);
        },
      )
  unfolding send_signed
  send_signed-authentic scheme priv recipient plain r shown hk own hp hr enough =
      let r1 : Reader = record r { content = drop 32 r.content } in
      let (sender_pub, sender_priv, sig, generated, signed, verified) =
        verify_ed25519-sign_ed25519 scheme plain r (omega arith) in
      let (size, hs) = signature_bytes scheme sender_priv plain sig signed in
      let (token, sealed, opened) =
        sealed_for priv recipient (sig ++ plain) r1 hk own (All-append IsByte sig plain hs hp)
          (All-drop IsByte 32 r.content hr) (omega (arith, length-drop 32 r.content)) in
      rw
        (
          send_signed,
          generated,
          signed,
          sealed,
          opened,
          slice-append 0 64 [] sig plain refl (omega arith),
          slice_from-append 64 sig plain size,
          verified,
        )
        refl

  generate_key_pair_lem :
      (r : Reader)
      → 32 ≤ length r.content
      → (p : Bytes) × (curve.x25519 (take 32 r.content) curve.basepoint ≡ some p)
        × (generate_key_pair curve r
            ≡ (ok (p, take 32 r.content), record r { content = drop 32 r.content }))
  unfolding generate_key_pair
  generate_key_pair_lem r enough =
      let (p, own) = public_exists (take 32 r.content) (omega (arith, length-take 32 r.content)) in
      (p, own, rw (draw-enough 32 r enough, own) refl)

  send_sealed-prints :
      (priv recipient plain : Bytes) (r : Reader) (shown : List Shown)
      → length priv ≡ 32
      → curve.x25519 priv curve.basepoint ≡ some recipient
      → IsBytes plain
      → IsBytes r.content
      → 76 ≤ length r.content
      → (token : Bytes) × (seal_asymmetric curve c recipient plain r
          ≡ (ok token, record r { content = drop 12 (drop 32 r.content) }))
        × (send_sealed curve c recipient priv plain (record { random = r; printed = shown }) ≡ (
          ok tt,
          record {
            random = record r { content = drop 32 (drop 12 (drop 32 r.content)) };
            printed =
                ((shown ++ (text token ∷ [])) ++ (text plain ∷ []))
                ++ tampering
                    (open_asymmetric curve c (take 32 (drop 12 (drop 32 r.content))) token);
          },
        ))
  unfolding send_sealed
  send_sealed-prints priv recipient plain r shown hk own hp hr enough =
      let left : Bytes = drop 12 (drop 32 r.content) in
      let (token, sealed, opened) = sealed_for priv recipient plain r hk own hp hr (omega arith) in
      let (other_pub, _, other) =
        generate_key_pair_lem (record r { content = left })
          (omega (arith, length-drop 12 (drop 32 r.content), length-drop 32 r.content)) in
      (
        token,
        sealed,
        rw (send_sealed, sealed, opened, other)
            (print_tampered_lem (open_asymmetric curve c (take 32 left) token) _
              (open_asymmetric_iff curve c (take 32 left) token plain).0),
      )

  -- With 184 bytes in the random source the program ends without an error. The recipient's private
  -- key is the first 32 bytes drawn. It prints the public key of it and the head of it, the token
  -- that `SealAsymmetric` makes of the message for this public key from the bytes that follow, the
  -- message that the recipient reads, ErrTampered if that is what `OpenAsymmetric` answers for this
  -- token and the private key drawn next, and at last that the second message is from the sender,
  -- and this message.
  pub signed_box_main-prints :
      (scheme : Scheme) (r : Reader)
      → IsBytes r.content
      → 184 ≤ length r.content
      → (recipient token : Bytes) × (curve.x25519 (take 32 r.content) curve.basepoint
          ≡ some recipient)
        × (seal_asymmetric curve c recipient message (record r { content = drop 32 r.content })
            ≡ (ok token, record r { content = drop 12 (drop 32 (drop 32 r.content)) }))
        × (signed_box_main curve c scheme (record { random = r; printed = [] }) ≡ (
          ok tt,
          record {
            random = record r {
              content =
                  drop 12 (drop 32 (drop 32 (drop 32 (drop 12 (drop 32 (drop 32 r.content))))));
            };
            printed =
                ((text (padded recipient)
                    ∷ text (take 24 (padded (take 32 r.content)) ++ codes "...")
                    ∷ text token
                    ∷ text message
                    ∷ [])
                  ++ tampering (
                      open_asymmetric curve c
                        (take 32 (drop 12 (drop 32 (drop 32 r.content))))
                        token))
                ++ (flag true ∷ text message ∷ []);
          },
        ))
  unfolding signed_box_main
  signed_box_main-prints scheme r hr enough =
      let priv : Bytes = take 32 r.content in
      let hk : length priv ≡ 32 = omega (arith, length-take 32 r.content) in
      let r1 : Reader = record r { content = drop 32 r.content } in
      let hr1 = All-drop IsByte 32 r.content hr in
      let r2 : Reader = record r { content = drop 32 (drop 12 (drop 32 r1.content)) } in
      let (recipient, own, generated) = generate_key_pair_lem r (omega arith) in
      let head : List Shown =
        text (padded recipient) ∷ text (take 24 (padded priv) ++ codes "...") ∷ [] in
      let other : Bytes = take 32 (drop 12 (drop 32 r1.content)) in
      let (token, sealed, first) =
        send_sealed-prints priv recipient message r1 head hk own (omega arith) hr1
          (omega (arith, length-drop 32 r.content)) in
      let printed : List Shown =
        ((head ++ (text token ∷ [])) ++ (text message ∷ []))
        ++ tampering (open_asymmetric curve c other token) in
      let left : 76 ≤ length r2.content = omega (
        arith,
        length-drop 32 (drop 12 (drop 32 r1.content)),
        length-drop 12 (drop 32 r1.content),
        length-drop 32 r1.content,
        length-drop 32 r.content,
      ) in
      (
        recipient,
        token,
        own,
        sealed,
        rw (signed_box_main, generated, slice_front 24 (padded priv) (padded_long priv hk), first)
            (send_signed-authentic scheme priv recipient message r2 printed hk own (omega arith)
              (All-drop IsByte 32 (drop 12 (drop 32 r1.content))
                (All-drop IsByte 12 (drop 32 r1.content) (All-drop IsByte 32 r1.content hr1)))
              left),
      )
