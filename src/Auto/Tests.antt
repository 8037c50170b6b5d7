-- ===== src/Auto/Tests.antt =====
-- The theorems on auto.go at concrete inputs, with the sample cipher and the sample mode.
use crypt.Base.{◌≡◌, ◌⊎◌, refl, drop, arith}
use crypt.Base.Outcome.{ok, err, unknown_format}
use crypt.Wire.{Bytes}
use crypt.Cipher.Sample.{sample}
use crypt.Cbc.Sample.{sample_mode}
use crypt.Cbc.Encrypt.{encrypt_cbc}
use crypt.Cbc.Decrypt.{decrypt_cbc}
use crypt.Gcm.Open.{open_token}
use crypt.Auto.{open_auto}
use crypt.Auto.Detect.{open_auto-encrypt_cbc, open_auto_sound}
use crypt.Samples.{key_32, hello, context, source}

open_auto-encrypt_cbc_example :
    (text : Bytes) × (encrypt_cbc sample_mode key_32 hello source
      ≡ (ok text, record source { content = drop 16 source.content }))
    × (open_auto sample sample_mode key_32 text context ≡ ok hello)
open_auto-encrypt_cbc_example =
    open_auto-encrypt_cbc sample sample_mode key_32 hello context source refl (omega arith)
      (omega arith) (omega arith)

open_auto_sound_example :
    ((plain : Bytes) × (open_auto sample sample_mode key_32 hello context ≡ ok plain)
      × ((open_token sample key_32 hello context ≡ ok plain)
          ⊎ (decrypt_cbc sample_mode key_32 hello ≡ ok plain)))
    ⊎ (open_auto sample sample_mode key_32 hello context ≡ err unknown_format)
open_auto_sound_example = open_auto_sound sample sample_mode key_32 hello context
