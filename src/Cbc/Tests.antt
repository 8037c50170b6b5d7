-- ===== src/Cbc/Tests.antt =====
-- The theorems on cbc.go at concrete inputs, with the sample mode.
use crypt.Base.{◌+◌, ◌-◌, ◌*◌, ◌%◌, ◌≡◌, ◌↔◌, refl, length, drop, arith, replicate}
use crypt.Base.Outcome.{ok}
use crypt.Wire.{Bytes}
use crypt.Wire.Hex
use crypt.Cbc.Sample.{sample_mode}
use crypt.Cbc.Padding.{pad, unpad, unpad_iff}
use crypt.Cbc.Encrypt.{encrypt_cbc}
use crypt.Cbc.Decrypt.{decrypt_cbc}
use crypt.Cbc.Laws.{IsCbcOf, decrypt_cbc_iff, decrypt_cbc-encrypt_cbc}
use crypt.Samples.{hello, source}

abbrev key_16 : Bytes
key_16 = replicate 16 5

padded_opens : unpad (pad hello 16) 16 ≡ ok hello
padded_opens = (unpad_iff (pad hello 16) hello).1 refl

abbrev text : Bytes
text = Hex.encode (replicate 32 1)

decrypt_cbc_iff_example :
    (decrypt_cbc sample_mode key_16 text ≡ ok hello) ↔ IsCbcOf sample_mode key_16 text hello
decrypt_cbc_iff_example = decrypt_cbc_iff sample_mode key_16 text hello

decrypt_cbc-encrypt_cbc_example :
    (text : Bytes) × (encrypt_cbc sample_mode key_16 hello source
      ≡ (ok text, record source { content = drop 16 source.content }))
    × (length text ≡ (length hello + (16 - length hello % 16) + 16) * 2)
    × (decrypt_cbc sample_mode key_16 text ≡ ok hello)
decrypt_cbc-encrypt_cbc_example =
    decrypt_cbc-encrypt_cbc sample_mode key_16 hello source refl (omega arith) (omega arith)
      (omega arith)
