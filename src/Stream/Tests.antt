-- ===== src/Stream/Tests.antt =====
-- The theorems on stream.go at concrete inputs, with the sample cipher: two bytes in chunks of one.
use crypt.Stream.Truncation.{stream_of, stream_error, stream_content, open_stream_cut}
use crypt.Base.{
  length, length-append, take, ap, sym, ◌<◌, ◌≡◌, ◌≢◌, ◌∷◌, false, true, replicate, ◌⊎◌, ◌++◌, refl,
  [], drop, arith,
}
use crypt.Base.Int.{pos}
use crypt.Base.Outcome.{err, ok, panic}
use crypt.Wire.{Bytes}
use crypt.Cipher.Sample.{sample}
use crypt.Stream.Seal.{seal_stream}
use mathlib.Core.Path.{subst}
use crypt.Stream.Open.{open_stream}
use crypt.Stream.Fields.{at}
use crypt.Stream.RoundTrip.{header, seal_stream_lem, open_stream-seal_stream}
use crypt.Stream.Sound.{Failed, Streamed, open_stream-cases}
use crypt.Stream.Termination.{streams_end}
use crypt.Base.{some}
use crypt.Stream.{Ends, make_stream_nonce, stream_aad}
use crypt.Stream.Nonces.{stream_chunks_differ}
use crypt.Samples.{key_32, hello, context, source}

open_stream-seal_stream_example :
    (stream : Bytes) × (seal_stream sample key_32 (pos 1) (at source hello context)
      ≡ (ok tt, at (record source { content = drop 8 source.content }) [] (context ++ stream)))
    × (open_stream sample key_32 (at source (stream ++ context) [])
        ≡ (ok tt, at source context ([] ++ hello)))
open_stream-seal_stream_example =
    open_stream-seal_stream sample key_32 refl (pos 1) hello context context [] source source refl
      (omega arith) (omega arith)

-- A stream whose only chunk is empty and has a tag of zeros.
abbrev forged : Bytes
forged = header (replicate 8 9) ++ (128 ∷ 0 ∷ 0 ∷ 16 ∷ replicate 16 0)

open_stream-cases_example :
    Failed sample key_32 source forged [] ⊎ Streamed sample key_32 source forged []
open_stream-cases_example = open_stream-cases sample key_32 source forged [] (omega arith)

first_chunks_differ :
    (make_stream_nonce context 0 ≢ make_stream_nonce context 1)
    × (stream_aad 0 false ≢ stream_aad 1 true)
first_chunks_differ =
    stream_chunks_differ context 0 1 (omega arith) (omega arith) false true (omega arith)

-- An input that fails behind two bytes, and an output that takes five.
abbrev broken_ends : Ends
broken_ends = record {
  random = source;
  input = record { content = hello; faulty = true };
  output = record { written = []; room = some 5 };
}

streams_end_example :
    ((seal_stream sample key_32 (pos 1) broken_ends).0 ≢ panic)
    × ((open_stream sample key_32 broken_ends).0 ≢ panic)
streams_end_example = streams_end sample key_32 (pos 1) broken_ends

-- The stream has a header of 13 bytes.
hello_stream-length : 12 < length (stream_of sample key_32 (pos 1) hello source)
hello_stream-length =
    let (body, sealed, _, _) =
      seal_stream_lem sample key_32 refl (pos 1) hello source refl (omega arith) (omega arith) in
    let prefix : Bytes = take 8 source.content in
    subst (λ (t : Bytes). 12 < length t) (sym (ap (λ r. r.1.output.written) (sealed [])))
      (omega (arith, length-append (header prefix) body))

open_stream_cut_example :
    open_stream sample key_32
      (at source (take 12 (stream_of sample key_32 (pos 1) hello source)) context)
    ≡ (err (stream_error 1 12), at source [] (context ++ take (stream_content 1 12) hello))
open_stream_cut_example =
    open_stream_cut sample key_32 refl (pos 1) hello context 12 source source refl (omega arith)
      (omega arith) hello_stream-length
