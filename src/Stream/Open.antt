-- ===== src/Stream/Open.antt =====
-- stream.go: `OpenStream`.
use crypt.Base.{ℕ, zero, suc, ◌+◌, ◌%◌, ◌^◌, ◌∷◌, leb, length, drop, ◌==◌, same, if◌then◌else◌}
use crypt.Base.Outcome.{
  Result, ok, err, panic, guard, or_fail, first, slice, invalid_key, invalid_ciphertext,
  unsupported_version, truncated, tampered, read_failure,
}
use crypt.Wire.{Bytes, u32}
use crypt.Entropy.{Filled, full, short, fault}
use crypt.Cipher.{Aead, new_gcm, open_with}
use crypt.Format.{aead_key_size}
use crypt.Stream.{
  Streaming, ◌>>=◌, ◌>>◌, lift, read, write, stream_magic, stream_version, stream_nonce_prefix,
  stream_header_size, make_stream_nonce, stream_aad,
}

-- The read of the four bytes in front of a chunk: the end of the input is a truncation.
unfoldable pub field_of : Filled → Result Bytes
field_of (full field) = ok field
field_of (short _) = err truncated
field_of fault = err read_failure

-- The other reads: every failure is ErrInvalidCiphertext.
unfoldable pub filled : Filled → Result Bytes
filled (full bytes) = ok bytes
filled (short _) = err invalid_ciphertext
filled fault = err invalid_ciphertext

-- `lenField[0] &= 0x7F`, and the length that is left.
unfoldable pub len_of : ℕ → Bytes → Result ℕ
len_of top field = u32 (top % 128 ∷ drop 1 field)

-- The loop. A turn that is not the last takes four bytes of the input or more, so one more turn
-- than the input has bytes is enough.
unfoldable pub open_loop : ℕ → Aead → Bytes → Bytes → ℕ → Streaming (Unit {0})
open_loop zero gcm key prefix counter = lift panic
open_loop (suc fuel) gcm key prefix counter =
    let next = open_loop fuel gcm key prefix ((counter + 1) % 2 ^ 32) in
    do
      got ← read 4
      field ← lift (field_of got)
      top ← lift (first field)
      ct_len ← lift (len_of top field)
      chunk ← read ct_len
      ct ← lift (filled chunk)
      opened ← lift (
          open_with gcm key (make_stream_nonce prefix counter) ct
            (stream_aad counter (leb 128 top)))
      plain ← lift (or_fail opened tampered)
      write plain
      if leb 128 top then lift (ok tt) else next

-- `OpenStream`
unfoldable pub open_stream : Aead → Bytes → Streaming (Unit {0})
open_stream gcm key s =
    (do
      lift (guard (length key == aead_key_size) invalid_key)
      got ← read stream_header_size
      header ← lift (filled got)
      magic ← lift (slice 0 4 header)
      lift (guard (same magic stream_magic) invalid_ciphertext)
      tail ← lift (slice 4 5 header)
      version ← lift (first tail)
      lift (guard (version == stream_version) unsupported_version)
      prefix ← lift (slice 5 (5 + stream_nonce_prefix) header)
      bound ← lift (new_gcm key)
      open_loop (suc (length s.input.content)) gcm bound prefix 0)
      s
