-- ===== src/Ed25519/Tests.antt =====
-- The theorem on ed25519.go at a concrete input.
use crypt.Base.{◌≡◌, true, drop, arith}
use crypt.Base.Outcome.{ok}
use crypt.Wire.{Bytes}
use crypt.Ed25519.{generate_ed25519, sign_ed25519, verify_ed25519, verify_ed25519-sign_ed25519}
use crypt.Ed25519.Sample.{sample_scheme}
use crypt.Samples.{hello, source}

sample_signature_accepted :
    (pub_key : Bytes) × (priv : Bytes) × (signature : Bytes) × (generate_ed25519 sample_scheme
        source
      ≡ (ok (pub_key, priv), record source { content = drop 32 source.content }))
    × (sign_ed25519 sample_scheme priv hello ≡ ok signature)
    × (verify_ed25519 sample_scheme pub_key hello signature ≡ ok true)
sample_signature_accepted = verify_ed25519-sign_ed25519 sample_scheme hello source (omega arith)
