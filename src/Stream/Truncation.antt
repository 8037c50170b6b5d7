-- ===== src/Stream/Truncation.antt =====
-- `OpenStream` refuses every stream of which the end is missing.
use crypt.Base.{
  if◌then◌else◌, ℕ, suc, ◌-◌, ◌^◌, ◌≤◌, ◌<◌, ◌≡◌, refl, sym, ap, ◌∙◌, [], ◌++◌, append-nil, true,
  Bool-cases, inl, inr, ltb, ltb→lt, ltb→le, length, take, arith, length-append, length-take,
  take-append_more,
}
use mathlib.Core.Path.{subst}
use crypt.Base.Int.{ℤ, is_positive, magnitude}
use crypt.Base.Outcome.{Error, err, invalid_ciphertext}
use crypt.Wire.{Bytes}
use crypt.Entropy.{Reader}
use crypt.Cipher.{Aead}
use crypt.Stream.Seal.{seal_stream}
use crypt.Stream.Open.{filled, open_stream}
use crypt.Stream.Fields.{at, read_full_short}
use crypt.Stream.Cut.{cut_error, cut_content, Cuts}
use crypt.Stream.RoundTrip.{header, open_header, seal_stream_lem}

-- What `SealStream` writes for an input.
abbrev pub stream_of : Aead → Bytes → ℤ → Bytes → Reader → Bytes
stream_of c key size content random =
    (seal_stream c key size (at random content [])).1.output.written

-- The error for the first `k` bytes of a stream in chunks of `size`: a cut in the header, or one in
-- the body behind it.
abbrev pub stream_error : ℕ → ℕ → Error
stream_error size k = if ltb k 13 then invalid_ciphertext else cut_error size (k - 13)

-- How much of the content is in front of the cut in whole chunks.
abbrev pub stream_content : ℕ → ℕ → ℕ
stream_content size k = if ltb k 13 then 0 else cut_content size (k - 13)

module _ (c : Aead) (key : Bytes) (hk : length key ≡ 32) where
  cut_stream :
      (size : ℕ) (prefix body content written : Bytes) (k : ℕ) (random : Reader)
      → length prefix ≡ 8
      → Cuts c key prefix size 0 body content
      → k < length (header prefix ++ body)
      → open_stream c key (at random (take k (header prefix ++ body)) written) ≡ (
        err (stream_error size k),
        at random [] (written ++ take (stream_content size k) content),
      )
  unfolding open_stream filled
  cut_stream size prefix body content written k random long cuts inside =
      let stream : Bytes = header prefix ++ body in
      let whole = length-append (header prefix) body in
      elim (Bool-cases (ltb k 13)) [
        | inl few ↦
            let less = ltb→lt k 13 few in
            rw (few, hk, read_full_short 13 (take k stream) (omega (arith, length-take k stream)))
              (ap (λ t. (err invalid_ciphertext, at random [] t)) (sym (append-nil written)))
        | inr many ↦
            let more = ltb→le k 13 many in
            let left : ℕ = k - 13 in
            ap (λ t. open_stream c key (at random t written))
              (take-append_more k left (header prefix) body (omega arith))
            ∙ open_header c key hk prefix (take left body) written random long
            ∙ cuts (suc (length (header prefix ++ take left body))) left written random
                (omega arith)
                (omega
                  (arith, length-append (header prefix) (take left body), length-take left body))
            ∙ rw many refl
      ]

  -- For a stream that `SealStream` writes with the key, a chunk size from 1 to 2 ^ 30 and 8 bytes
  -- in the random source, `OpenStream` with the key writes, for every proper prefix of the stream,
  -- the content of the chunks that are whole, and answers by an error: ErrTruncated if the cut is in
  -- front of the length field of a chunk or in it, and ErrInvalidCiphertext if it is behind one, or
  -- in the header.
  pub open_stream_cut :
      (size : ℤ) (content written : Bytes) (k : ℕ) (random random' : Reader)
      → is_positive size ≡ true
      → magnitude size ≤ 2 ^ 30
      → 8 ≤ length random.content
      → k < length (stream_of c key size content random)
      → open_stream c key (at random' (take k (stream_of c key size content random)) written) ≡ (
        err (stream_error (magnitude size) k),
        at random' [] (written ++ take (stream_content (magnitude size) k) content),
      )
  open_stream_cut size content written k random random' positive high enough inside =
      let prefix : Bytes = take 8 random.content in
      let (body, sealed, _, cuts) =
        seal_stream_lem c key hk size content random positive high enough in
      let shape : stream_of c key size content random ≡ header prefix ++ body =
        ap (λ r. r.1.output.written) (sealed []) in
      subst
        (λ t. open_stream c key (at random' (take k t) written) ≡ (
          err (stream_error (magnitude size) k),
          at random' [] (written ++ take (stream_content (magnitude size) k) content),
        ))
        (sym shape)
        (cut_stream (magnitude size) prefix body content written k random'
          (omega (arith, length-take 8 random.content)) cuts
          (subst (λ t. k < length t) shape inside))
