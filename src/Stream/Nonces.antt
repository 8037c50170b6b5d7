-- ===== src/Stream/Nonces.antt =====
-- The nonces and the additional data of the chunks of one stream.
use crypt.Base.{
  ℕ, ◌^◌, ◌<◌, ◌≡◌, ◌≢◌, if◌then◌else◌, sym, ap, ◌∙◌, [], ◌∷◌, ◌++◌, Bool, take, drop, replicate,
  length, arith, length-append, length-take, drop-append,
}
use crypt.Base.Outcome.{ok}
use crypt.Wire.{Bytes, put_u32, u32, u32-put_u32_only, u32-put_u32}
use crypt.Stream.{make_stream_nonce, stream_aad}

module _ (prefix : Bytes) (i j : ℕ) (hi : i < 2 ^ 32) (hj : j < 2 ^ 32) where
  same_nonce : make_stream_nonce prefix i ≡ make_stream_nonce prefix j → i ≡ j
  unfolding make_stream_nonce
  same_nonce e =
      let front : Bytes = take 8 (prefix ++ replicate 8 0) in
      let eight : length front ≡ 8 =
        omega
          (arith, length-take 8 (prefix ++ replicate 8 0), length-append prefix (replicate 8 0)) in
      let fields : put_u32 i ≡ put_u32 j =
        sym (drop-append 8 front (put_u32 i) eight)
        ∙ ap (λ (t : Bytes). drop 8 t) e
        ∙ drop-append 8 front (put_u32 j) eight in
      let values : ok i ≡ ok j =
        sym (u32-put_u32_only i hi) ∙ ap u32 fields ∙ u32-put_u32_only j hj in
      cc values

  same_aad : (m n : Bool) → stream_aad i m ≡ stream_aad j n → i ≡ j
  unfolding stream_aad
  same_aad m n e =
      let values : ok i ≡ ok j =
        sym (u32-put_u32 i ((if m then 1 else 0) ∷ []) hi)
        ∙ ap u32 e
        ∙ u32-put_u32 j ((if n then 1 else 0) ∷ []) hj in
      cc values

  -- Two chunks of a stream among its first 2 ^ 32 have different nonces and different additional
  -- data, whichever of them is marked as the last.
  pub stream_chunks_differ :
      (m n : Bool)
      → i ≢ j
      → (make_stream_nonce prefix i ≢ make_stream_nonce prefix j)
        × (stream_aad i m ≢ stream_aad j n)
  stream_chunks_differ m n differ = (λ e. differ (same_nonce e), λ e. differ (same_aad m n e))
