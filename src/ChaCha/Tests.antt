-- ===== src/ChaCha/Tests.antt =====
-- The theorems on aead_chacha20.go at concrete inputs, with the sample cipher.
use crypt.Base.{◌≡◌, refl, drop, arith}
use crypt.Base.Outcome.{ok, err, unsupported_version}
use crypt.Wire.{Bytes}
use crypt.Cipher.Sample.{sample}
use crypt.Format.{version_aead_v1, version_aead_v2}
use crypt.Format.Sealed.{token_of, token_of-IsTokenOf}
use crypt.Gcm.Open.{open_token}
use crypt.Gcm.Accepts.{open_token_iff}
use crypt.ChaCha.Seal.{seal_chacha20}
use crypt.ChaCha.Open.{open_chacha20}
use crypt.ChaCha.Laws.{open_chacha20_iff, open_chacha20-seal, versions_apart}
use crypt.Samples.{key_32, other_key_32, nonce_12, hello, context, source}

abbrev hello_token : Bytes
hello_token = token_of sample version_aead_v2 key_32 nonce_12 hello context

abbrev gcm_token : Bytes
gcm_token = token_of sample version_aead_v1 key_32 nonce_12 hello context

hello_opens : open_chacha20 sample key_32 hello_token context ≡ ok hello
hello_opens = (open_chacha20_iff sample key_32 context hello_token hello).1 (
  refl,
  token_of-IsTokenOf sample version_aead_v2 key_32 nonce_12 hello context (omega arith) refl
      (omega arith) (omega arith),
)

gcm_opens : open_token sample key_32 gcm_token context ≡ ok hello
gcm_opens = (open_token_iff sample key_32 context gcm_token hello).1 (
  refl,
  token_of-IsTokenOf sample version_aead_v1 key_32 nonce_12 hello context (omega arith) refl
      (omega arith) (omega arith),
)

open_chacha20-seal_example :
    (token : Bytes) × (seal_chacha20 sample key_32 hello context source
      ≡ (ok token, record source { content = drop 12 source.content }))
    × (open_chacha20 sample key_32 token context ≡ ok hello)
open_chacha20-seal_example =
    open_chacha20-seal sample key_32 hello context source refl (omega arith) (omega arith)
      (omega arith)

hello_tokens_apart :
    (open_token sample other_key_32 hello_token hello ≡ err unsupported_version)
    × (open_chacha20 sample other_key_32 gcm_token hello ≡ err unsupported_version)
hello_tokens_apart =
    versions_apart sample sample key_32 other_key_32 context hello hello_token gcm_token hello hello
      refl hello_opens gcm_opens
