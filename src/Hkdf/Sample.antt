-- ===== src/Hkdf/Sample.antt =====
-- HKDF for concrete runs, with a constant output.
use crypt.Base.{ℕ, ◌≡◌, length, length-replicate, replicate}
use crypt.Wire.{Bytes}
use crypt.Hkdf.{Hkdf}

pub eights : ℕ → Bytes
eights n = replicate n 8

pub length-eights : (n : ℕ) → length (eights n) ≡ n
unfolding eights
length-eights n = length-replicate n 8

abbrev pub sample_hkdf : Hkdf
sample_hkdf = record {
  output = λ master salt info. eights 8160;
  length-output = λ master salt info. length-eights 8160;
}
