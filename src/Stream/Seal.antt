-- ===== src/Stream/Seal.antt =====
-- stream.go: `SealStream`.
use crypt.Base.{
  ℕ, zero, suc, ◌+◌, ◌%◌, ◌^◌, [], ◌∷◌, Bool, true, false, ltb, leb, length, ◌==◌, ◌&&◌,
  if◌then◌else◌,
}
use crypt.Base.Int.{ℤ, is_positive, magnitude}
use crypt.Base.Outcome.{Result, ok, err, panic, guard, invalid_key, bad_chunk_size, read_failure}
use crypt.Wire.{Bytes, put_u32}
use crypt.Entropy.{Filled, full, short, fault}
use crypt.Cipher.{Aead, new_gcm, seal_with}
use crypt.Format.{aead_key_size}
use crypt.Stream.{
  Streaming, ◌>>=◌, ◌>>◌, lift, draw_bytes, read, write, stream_magic, stream_version,
  stream_nonce_prefix, stream_max_chunk_size, make_stream_nonce, stream_aad,
}

-- The `switch` on the error of the read: the chunk, and whether it is the last.
unfoldable pub chunk_of : Filled → Result (Bytes × Bool)
chunk_of (full plain) = ok (plain, false)
chunk_of (short plain) = ok (plain, true)
chunk_of fault = err read_failure

-- `lenField[0] |= 0x80`
abbrev pub set_high_bit : Bytes → Bytes
set_high_bit [] = []
set_high_bit (b ∷ bs) = (if ltb b 128 then b + 128 else b) ∷ bs

-- The four bytes in front of a chunk: its length, and in the high bit whether it is the last.
unfoldable pub len_field : ℕ → Bool → Bytes
len_field n last = let field = put_u32 (n % 2 ^ 32) in if last then set_high_bit field else field

-- The loop. A turn takes at least one byte of the input or is the last, so one more turn than the
-- input has bytes is enough.
unfoldable pub seal_loop : ℕ → Aead → Bytes → Bytes → ℕ → ℕ → Streaming (Unit {0})
seal_loop zero gcm key prefix size counter = lift panic
seal_loop (suc fuel) gcm key prefix size counter =
    let next = seal_loop fuel gcm key prefix size ((counter + 1) % 2 ^ 32) in
    do
      got ← read size
      (plain, last) ← lift (chunk_of got)
      ct ←
          lift
            (seal_with gcm key (make_stream_nonce prefix counter) plain (stream_aad counter last))
      write (len_field (length ct) last)
      write ct
      if last then lift (ok tt) else next

-- `SealStream`
unfoldable pub seal_stream : Aead → Bytes → ℤ → Streaming (Unit {0})
seal_stream gcm key chunk_size s =
    (do
      lift (guard (length key == aead_key_size) invalid_key)
      lift (
          guard (is_positive chunk_size && leb (magnitude chunk_size) stream_max_chunk_size)
            bad_chunk_size)
      bound ← lift (new_gcm key)
      prefix ← draw_bytes stream_nonce_prefix
      write stream_magic
      write (stream_version ∷ [])
      write prefix
      seal_loop (suc (length s.input.content)) gcm bound prefix (magnitude chunk_size) 0)
      s
