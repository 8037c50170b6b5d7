-- ===== src/Sign/Tests.antt =====
-- Runs of sign.go, with a checksum for a tag.
use crypt.Base.{◌≡◌, refl, true, false, replicate}
use crypt.Sign.{sign, verify, verify_iff}
use crypt.Sign.Sample.{sample_hmac}
use crypt.Samples.{key_32, hello}

own_tag : verify sample_hmac key_32 hello (sign sample_hmac key_32 hello) ≡ true
own_tag = (verify_iff sample_hmac key_32 hello (sign sample_hmac key_32 hello)).1 refl

short_tag : verify sample_hmac key_32 hello (replicate 31 34) ≡ false
unfolding verify
short_tag = refl
