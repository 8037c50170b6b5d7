-- ===== src/Stream/RoundTrip.antt =====
-- `OpenStream` reads what `SealStream` writes.
use crypt.Base.{
  suc, ◌^◌, ◌≤◌, ◌≡◌, refl, ap, ◌∙◌, [], ◌∷◌, ◌++◌, append_assoc, true, le→leb, length, take, drop,
  take_all, arith, length-append, length-take, same,
}
use crypt.Base.Int.{ℤ, is_positive, magnitude, positive-magnitude}
use crypt.Base.Outcome.{ok, first, slice, slice-append, slice-in_range}
use crypt.Wire.{Bytes}
use crypt.Entropy.{Reader}
use crypt.Entropy.Laws.{draw-enough}
use crypt.Cipher.{Aead, new_gcm_32}
use crypt.Stream.{stream_magic, stream_version}
use crypt.Stream.Seal.{seal_stream}
use crypt.Stream.Open.{filled, open_loop, open_stream}
use crypt.Stream.Fields.{at, read_full-append}
use crypt.Stream.Cut.{Cuts}
use crypt.Stream.Turns.{Opens, loop_inverse}

abbrev pub header : Bytes → Bytes
header prefix = stream_magic ++ (stream_version ∷ prefix)

pub slice_prefix : (prefix : Bytes) → length prefix ≡ 8 → slice 5 13 (header prefix) ≡ ok prefix
slice_prefix prefix h =
    slice-in_range 5 13 (header prefix) (omega arith) (omega arith)
    ∙ ap ok (take_all 8 prefix (omega arith))

header_written :
    (written prefix body : Bytes)
    → (((written ++ stream_magic) ++ (stream_version ∷ [])) ++ prefix) ++ body
      ≡ written ++ (header prefix ++ body)
header_written written prefix body =
    append_assoc ((written ++ stream_magic) ++ (stream_version ∷ [])) prefix body
    ∙ append_assoc (written ++ stream_magic) (stream_version ∷ []) (prefix ++ body)
    ∙ append_assoc written stream_magic (stream_version ∷ (prefix ++ body))

module _ (c : Aead) (key : Bytes) (hk : length key ≡ 32) where
  pub open_header :
      (prefix body written : Bytes) (random : Reader)
      → length prefix ≡ 8
      → open_stream c key (at random (header prefix ++ body) written)
        ≡ open_loop (suc (length (header prefix ++ body))) c key prefix 0 (at random body written)
  unfolding open_stream filled first same
  open_header prefix body written random h =
      rw
        (
          hk,
          read_full-append 13 (header prefix) body (omega arith),
          slice-append 0 4 [] stream_magic (stream_version ∷ prefix) refl refl,
          slice-append 4 5 stream_magic (stream_version ∷ []) prefix refl refl,
          slice_prefix prefix h,
          new_gcm_32 key hk,
        )
        refl

  -- What `SealStream` writes: the header and a body, whatever was written before.
  pub seal_stream_lem :
      (size : ℤ) (content : Bytes) (random : Reader)
      → is_positive size ≡ true
      → magnitude size ≤ 2 ^ 30
      → 8 ≤ length random.content
      → (body : Bytes) × ((written : Bytes)
          → seal_stream c key size (at random content written) ≡ (
            ok tt,
            at
                (record random { content = drop 8 random.content })
                []
                (written ++ (header (take 8 random.content) ++ body)),
          ))
        × Opens c key (take 8 random.content) 0 body content
        × Cuts c key (take 8 random.content) (magnitude size) 0 body content
  unfolding seal_stream
  seal_stream_lem size content random positive high enough =
      let prefix : Bytes = take 8 random.content in
      let left : Reader = record random { content = drop 8 random.content } in
      let (body, sealed, opens, cuts) =
        loop_inverse c key prefix (magnitude size) (positive-magnitude size positive) high
          (suc (length content)) 0 content (omega arith) in
      (
        body,
        λ written.
            rw
              (
                hk,
                positive,
                le→leb (magnitude size) (2 ^ 30) high,
                new_gcm_32 key hk,
                draw-enough 8 random enough,
              )
              (sealed (((written ++ stream_magic) ++ (stream_version ∷ [])) ++ prefix) left
                ∙ ap (λ t. (ok tt, at left [] t)) (header_written written prefix body)),
        opens,
        cuts,
      )

  -- With a key of 32 bytes, a chunk size from 1 to 2 ^ 30, 8 bytes in the random source, an input
  -- that ends without an error and an output that never fails, `SealStream` reads the whole input
  -- and writes a stream, and `OpenStream` with the same key reads that stream up to its end,
  -- whatever follows it, and writes the input of `SealStream`.
  pub open_stream-seal_stream :
      (size : ℤ) (content written rest written' : Bytes) (random random' : Reader)
      → is_positive size ≡ true
      → magnitude size ≤ 2 ^ 30
      → 8 ≤ length random.content
      → (stream : Bytes) × (seal_stream c key size (at random content written)
          ≡ (ok tt, at (record random { content = drop 8 random.content }) [] (written ++ stream)))
        × (open_stream c key (at random' (stream ++ rest) written')
            ≡ (ok tt, at random' rest (written' ++ content)))
  open_stream-seal_stream size content written rest written' random random' positive high enough =
      let prefix : Bytes = take 8 random.content in
      let long : length prefix ≡ 8 = omega (arith, length-take 8 random.content) in
      let (body, sealed, opens, _) = seal_stream_lem size content random positive high enough in
      (
        header prefix ++ body,
        sealed written,
        ap (λ t. open_stream c key (at random' t written')) (append_assoc (header prefix) body rest)
            ∙ open_header prefix (body ++ rest) written' random' long
            ∙ opens (suc (length (header prefix ++ (body ++ rest)))) rest written' random' (
                omega
                  (arith, length-append (header prefix) (body ++ rest), length-append body rest)),
      )
