-- ===== src/KeyRing/Seal.antt =====
-- keyring.go: `KeyRing.Seal`.
use crypt.Base.{length, ◌%◌, ◌∷◌, ◌++◌, Option, none, some}
use crypt.Base.Outcome.{Result, ok, panic, ◌>>=◌}
use crypt.Wire.{Bytes}
use crypt.Wire.Base64
use crypt.Entropy.{Drawing, draw, and_then, lift}
use crypt.Cipher.{Aead, seal_with}
use crypt.Format.{aead_nonce_size, version_aead_v3}
use crypt.Assoc.{lookup}
use crypt.KeyRing.{KeyRing}

-- A method call on the cipher found in a map; where there is none it is a nil interface.
abbrev pub found : Option Bytes → Result Bytes
found none = panic
found (some gcm) = ok gcm

-- The version, the length of the kid in a byte, the kid, the nonce, and what the cipher appends.
unfoldable pub seal_kid_frame : Aead → Option Bytes → Bytes → Bytes → Bytes → Bytes → Result Bytes
seal_kid_frame c entry kid nonce plain aad = do
  gcm ← found entry
  body ← seal_with c gcm nonce plain aad
  ok (Base64.encode Base64.url (version_aead_v3 ∷ length kid % 256 ∷ (kid ++ (nonce ++ body))))

-- `KeyRing.Seal`
unfoldable pub ring_seal : Aead → KeyRing → Bytes → Bytes → Drawing Bytes
ring_seal c r plain aad source =
    and_then (λ nonce. lift (seal_kid_frame c (lookup r.active r.keys) r.active nonce plain aad))
      (draw aead_nonce_size source)
