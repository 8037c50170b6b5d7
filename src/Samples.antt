-- ===== src/Samples.antt =====
-- Concrete keys, texts and sources for the tests.
use crypt.Base.{[], ◌∷◌, replicate, false}
use crypt.Wire.{Bytes}
use crypt.Entropy.{Reader}

abbrev pub key_32 : Bytes
key_32 = replicate 32 7

abbrev pub other_key_32 : Bytes
other_key_32 = replicate 32 8

abbrev pub nonce_12 : Bytes
nonce_12 = replicate 12 9

abbrev pub hello : Bytes
hello = b'h' ∷ b'i' ∷ []

abbrev pub context : Bytes
context = b'u' ∷ b'1' ∷ []

abbrev pub source : Reader
source = record { content = replicate 60 9; faulty = false }
