-- ===== src/Examples/Envelopes.antt =====
-- examples/envelope_encryption: the program.
pub mod Run
use crypt.Base.{[], ◌∷◌, replicate, not, same}
use crypt.Base.Outcome.{slice}
use crypt.Wire.{Bytes}
use crypt.Wire.Text.{codes}
use crypt.Cipher.{Aead}
use crypt.Kms.Seal.{EnvelopeSealer, new_envelope_sealer, new_static_kms, add_key, envelope_seal}
use crypt.Kms.Open.{envelope_open}
use crypt.Kms.Static.{static_kms}
use crypt.Examples.Program.{
  Program, text, flag, ◌>>=◌, ◌>>◌, lift, drawn, drawn_ignoring, settled, print,
}

abbrev pub kek : Bytes
kek = replicate 32 0xA1

abbrev pub kek_id : Bytes
kek_id = codes "kek-prod-2026"

abbrev pub card_data : Bytes
card_data = codes "PCI-regulated card metadata"

-- The round trip that `main` shows.
unfoldable pub sealed_and_opened : Aead → EnvelopeSealer → Program (Unit {0})
sealed_and_opened c sealer = do
  ct ← drawn (envelope_seal c sealer card_data (codes "table:transactions"))
  head ← lift (slice 0 48 ct)
  print (text head ∷ [])
  pt ← lift (envelope_open c sealer ct (codes "table:transactions"))
  print (text pt ∷ [])

-- The two seals that `main` compares.
unfoldable pub sealed_twice : Aead → EnvelopeSealer → Program (Unit {0})
sealed_twice c sealer = do
  a ← drawn_ignoring [] (envelope_seal c sealer card_data [])
  b ← drawn_ignoring [] (envelope_seal c sealer card_data [])
  print (flag (not (same a b)) ∷ [])

-- `main`
unfoldable pub envelopes_main : Aead → Program (Unit {0})
envelopes_main c = do
  kms ← settled (add_key new_static_kms kek_id kek)
  let sealer = new_envelope_sealer (static_kms c kms) kek_id
  sealed_and_opened c sealer
  sealed_twice c sealer
