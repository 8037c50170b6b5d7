-- ===== src/Examples/SignedBox.antt =====
-- examples/asymmetric_encrypt: the program.
pub mod Run
mod Tests
use crypt.Base.{◌+◌, ◌-◌, ◌%◌, List, [], ◌∷◌, ◌++◌, Bool, false, length, replicate}
use crypt.Base.Outcome.{Result, ok, err, panic, slice, slice_from, tampered}
use crypt.Wire.{Bytes}
use crypt.Wire.Base64
use crypt.Wire.Text.{codes}
use crypt.Cipher.{Aead}
use crypt.Asymmetric.{Curve}
use crypt.Asymmetric.Seal.{generate_key_pair, seal_asymmetric}
use crypt.Asymmetric.Open.{open_asymmetric}
use crypt.Ed25519.{Scheme, ed25519_signature_size, generate_ed25519, sign_ed25519, verify_ed25519}
use crypt.Examples.Program.{
  Program, Shown, text, failure, flag, ◌>>=◌, ◌>>◌, lift, drawn, drawn_ignoring, ignoring, print,
}

-- `base64.StdEncoding.EncodeToString`, with the padding.
abbrev pub padded : Bytes → Bytes
padded b = Base64.encode Base64.std b ++ replicate ((3 - length b % 3) % 3) b'='

-- `if _, err := f(); errors.Is(err, crypt.ErrTampered) { fmt.Printf(err) }`
unfoldable pub tampering : Result Bytes → List Shown
tampering (err tampered) = failure tampered ∷ []
tampering m = []

abbrev pub print_tampered : Result Bytes → Program (Unit {0})
print_tampered (ok pt) = print (tampering (ok pt))
print_tampered (err e) = print (tampering (err e))
print_tampered panic = lift panic

-- The first part of `main`: a sealed box for a recipient.
unfoldable pub send_sealed : Curve → Aead → Bytes → Bytes → Bytes → Program (Unit {0})
send_sealed curve c recipient_pub recipient_priv plain = do
  ct ← drawn (seal_asymmetric curve c recipient_pub plain)
  print (text ct ∷ [])
  pt ← lift (open_asymmetric curve c recipient_priv ct)
  print (text pt ∷ [])
  (_, other_priv) ← drawn_ignoring ([], []) (generate_key_pair curve)
  print_tampered (open_asymmetric curve c other_priv ct)

-- The second part of `main`: the sender signs, then seals; the recipient opens, then verifies.
unfoldable pub send_signed : Curve → Aead → Scheme → Bytes → Bytes → Bytes → Program (Unit {0})
send_signed curve c scheme recipient_pub recipient_priv plain = do
  (sender_pub, sender_priv) ← drawn_ignoring ([], []) (generate_ed25519 scheme)
  sig ← lift (ignoring [] (sign_ed25519 scheme sender_priv plain))
  signed_ct ← drawn_ignoring [] (seal_asymmetric curve c recipient_pub (sig ++ plain))
  opened ← lift (ignoring [] (open_asymmetric curve c recipient_priv signed_ct))
  got_sig ← lift (slice 0 ed25519_signature_size opened)
  got_msg ← lift (slice_from ed25519_signature_size opened)
  authentic ← lift (ignoring false (verify_ed25519 scheme sender_pub got_msg got_sig))
  print (flag authentic ∷ text got_msg ∷ [])

-- `main`
unfoldable pub signed_box_main : Curve → Aead → Scheme → Program (Unit {0})
signed_box_main curve c scheme = do
  (recipient_pub, recipient_priv) ← drawn (generate_key_pair curve)
  priv_head ← lift (slice 0 24 (padded recipient_priv))
  print (text (padded recipient_pub) ∷ text (priv_head ++ codes "...") ∷ [])
  send_sealed curve c recipient_pub recipient_priv (codes "only the recipient can read this")
  send_signed curve c scheme recipient_pub recipient_priv (codes "only the recipient can read this")
