-- ===== src/Sign/Sample.antt =====
-- A tag for concrete runs: the lengths of the key and of the text, in every place.
use crypt.Base.{◌+◌, ◌%◌, length, length-replicate, replicate, All-replicate, arith}
use crypt.Wire.{Bytes, IsByte, IsBytes}
use crypt.Sign.{Hmac}

pub sample_tag-IsBytes :
    (key text : Bytes) → IsBytes (replicate 32 ((length key + length text) % 256))
sample_tag-IsBytes key text =
    All-replicate IsByte 32 ((length key + length text) % 256) (omega arith)

abbrev pub sample_hmac : Hmac
sample_hmac = record {
  tag = λ key text. replicate 32 ((length key + length text) % 256);
  length-tag = λ key text. length-replicate 32 ((length key + length text) % 256);
  tag-IsBytes = sample_tag-IsBytes;
}
