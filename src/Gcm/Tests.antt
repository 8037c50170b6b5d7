-- ===== src/Gcm/Tests.antt =====
-- Concrete runs of aead.go with the sample cipher, and its theorems at concrete inputs.
use crypt.Base.{◌+◌, ◌*◌, ◌/◌, ◌≡◌, ◌↔◌, refl, [], ◌∷◌, length, drop, arith}
use crypt.Base.Outcome.{ok, err, invalid_key, tampered}
use crypt.Wire.{Bytes}
use crypt.Cipher.Sample.{sample}
use crypt.Format.{version_aead_v1}
use crypt.Format.Sealed.{token_of}
use crypt.Format.Tokens.{IsTokenOf, IsForged}
use crypt.Gcm.Seal.{seal}
use crypt.Gcm.Open.{open_token}
use crypt.Gcm.Accepts.{open_token_iff, open_token_tampered_iff}
use crypt.Gcm.RoundTrip.{open_token-seal}
use crypt.Samples.{key_32, nonce_12, hello, context, source}

abbrev hello_token : Bytes
hello_token = token_of sample version_aead_v1 key_32 nonce_12 hello context

open_token_short_key : open_token sample (7 ∷ []) hello_token context ≡ err invalid_key
unfolding open_token
open_token_short_key = refl

open_token_iff_example :
    (open_token sample key_32 hello_token context ≡ ok hello)
    ↔ ((length key_32 ≡ 32) × IsTokenOf sample version_aead_v1 key_32 context hello_token hello)
open_token_iff_example = open_token_iff sample key_32 context hello_token hello

open_token_tampered_iff_example :
    (open_token sample key_32 hello_token [] ≡ err tampered)
    ↔ ((length key_32 ≡ 32) × IsForged sample version_aead_v1 key_32 [] hello_token)
open_token_tampered_iff_example = open_token_tampered_iff sample key_32 [] hello_token

open_token-seal_example :
    (token : Bytes) × (seal sample key_32 hello context source
      ≡ (ok token, record source { content = drop 12 source.content }))
    × (length token ≡ ((length hello + 29) * 4 + 2) / 3)
    × (open_token sample key_32 token context ≡ ok hello)
open_token-seal_example =
    open_token-seal sample key_32 hello context source refl (omega arith) (omega arith)
      (omega arith)
