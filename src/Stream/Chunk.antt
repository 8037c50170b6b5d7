-- ===== src/Stream/Chunk.antt =====
-- A chunk of a stream, and the turn of the loop of `OpenStream` that takes it.
use crypt.Base.{
  ℕ, suc, ◌+◌, ◌-◌, ◌%◌, ◌^◌, ◌<◌, ◌≡◌, refl, ap, ◌∷◌, ◌++◌, Bool, length, if◌then◌else◌, arith,
  length-append,
}
use crypt.Base.Outcome.{ok, first}
use crypt.Wire.{Bytes}
use crypt.Entropy.{Reader}
use crypt.Cipher.{Aead, open_with_12}
use crypt.Stream.{lift, make_stream_nonce, stream_aad}
use crypt.Stream.Seal.{len_field}
use crypt.Stream.Open.{field_of, filled, open_loop}
use crypt.Stream.Fields.{at, read_full-append, length-make_stream_nonce, len_of-len_field}

module _ (c : Aead) (key prefix : Bytes) where
  abbrev pub ct_of : ℕ → Bytes → Bool → Bytes
  ct_of counter plain last =
      c.seal key (make_stream_nonce prefix counter) plain (stream_aad counter last)

  pub open_turn :
      (fuel counter : ℕ) (plain rest written : Bytes) (last : Bool) (random : Reader)
      → length plain < 2 ^ 31 - 16
      → open_loop (suc fuel) c key prefix counter (
          at random
            (len_field (length (ct_of counter plain last)) last
              ++ (ct_of counter plain last ++ rest))
            written)
        ≡ (if last then lift (ok tt) else open_loop fuel c key prefix ((counter + 1) % 2 ^ 32))
            (at random rest (written ++ plain))
  unfolding open_loop field_of filled first
  open_turn fuel counter plain rest written last random small =
      let ct : Bytes = ct_of counter plain last in
      let size =
        c.length-seal key (make_stream_nonce prefix counter) plain (stream_aad counter last) in
      let (top, tail, shape, three, mark, len) = len_of-len_field (length ct) last (omega arith) in
      rw
        (
          shape,
          read_full-append 4 (top ∷ tail) (ct ++ rest) (omega arith),
          len,
          read_full-append (length ct) ct rest refl,
          mark,
          open_with_12 c key (make_stream_nonce prefix counter) ct (stream_aad counter last)
              (length-make_stream_nonce prefix counter),
          c.open-seal key (make_stream_nonce prefix counter) plain (stream_aad counter last),
        )
        refl

  abbrev pub chunk : ℕ → Bytes → Bool → Bytes
  chunk counter plain last =
      len_field (length (ct_of counter plain last)) last ++ ct_of counter plain last

  pub length-chunk :
      (counter : ℕ) (plain : Bytes) (last : Bool)
      → length plain < 2 ^ 31 - 16
      → length (chunk counter plain last) ≡ length plain + 20
  length-chunk counter plain last small =
      let ct : Bytes = ct_of counter plain last in
      let size =
        c.length-seal key (make_stream_nonce prefix counter) plain (stream_aad counter last) in
      let (top, tail, shape, three, _, _) = len_of-len_field (length ct) last (omega arith) in
      omega
        (arith, length-append (len_field (length ct) last) ct, ap (λ (t : Bytes). length t) shape)
