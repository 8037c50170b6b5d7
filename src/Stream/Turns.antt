-- ===== src/Stream/Turns.antt =====
-- One turn of the loop of `SealStream` and of the loop of `OpenStream`, and all their turns.
use crypt.Base.{
  ℕ, zero, suc, ◌+◌, ◌%◌, ◌^◌, ◌≤◌, ◌<◌, ◌≡◌, refl, sym, ap, ◌∙◌, [], ◌++◌, append_assoc, true,
  false, Bool-cases, inl, inr, ltb, ltb→lt, ltb→le, length, take, drop, arith, length-append,
  length-take, length-drop, take-append-drop,
}
use crypt.Base.Outcome.{ok}
use crypt.Wire.{Bytes}
use crypt.Entropy.{Reader}
use crypt.Cipher.{Aead, seal_with_12}
use crypt.Stream.{make_stream_nonce, stream_aad}
use crypt.Stream.Seal.{chunk_of, len_field, seal_loop}
use crypt.Stream.Open.{open_loop}
use mathlib.Core.Path.{subst}
use crypt.Stream.Fields.{at, read_full-append, read_full_short, length-make_stream_nonce}
use crypt.Stream.Chunk.{ct_of, chunk, length-chunk, open_turn}
use crypt.Stream.Cut.{Cuts, chunk-Cuts, append-Cuts}

module _ (c : Aead) (key prefix : Bytes) where
  seal_last :
      (fuel size counter : ℕ) (plain written : Bytes) (random : Reader)
      → length plain < size
      → seal_loop (suc fuel) c key prefix size counter (at random plain written)
        ≡ (ok tt, at random [] (written ++ chunk c key prefix counter plain true))
  unfolding seal_loop chunk_of
  seal_last fuel size counter plain written random h =
      rw
        (
          read_full_short size plain h,
          seal_with_12 c key (make_stream_nonce prefix counter) plain (stream_aad counter true)
              (length-make_stream_nonce prefix counter),
          append_assoc written (len_field (length (ct_of c key prefix counter plain true)) true)
              (ct_of c key prefix counter plain true),
        )
        refl

  seal_turn :
      (fuel size counter : ℕ) (plain rest written : Bytes) (random : Reader)
      → length plain ≡ size
      → seal_loop (suc fuel) c key prefix size counter (at random (plain ++ rest) written)
        ≡ seal_loop fuel c key prefix size
            ((counter + 1) % 2 ^ 32)
            (at random rest (written ++ chunk c key prefix counter plain false))
  unfolding seal_loop chunk_of
  seal_turn fuel size counter plain rest written random h =
      rw
        (
          read_full-append size plain rest h,
          seal_with_12 c key (make_stream_nonce prefix counter) plain (stream_aad counter false)
              (length-make_stream_nonce prefix counter),
          append_assoc written (len_field (length (ct_of c key prefix counter plain false)) false)
              (ct_of c key prefix counter plain false),
        )
        refl

  -- What the sealing loop writes from a counter on, the opening loop reads from that counter on.
  abbrev pub Opens : ℕ → Bytes → Bytes → Type 0
  Opens counter body content =
      (n : ℕ) (rest written : Bytes) (random : Reader)
      → length body < n
      → open_loop n c key prefix counter (at random (body ++ rest) written)
        ≡ (ok tt, at random rest (written ++ content))

  abbrev pub Written : ℕ → ℕ → ℕ → Bytes → Type 0
  Written fuel size counter content =
      (body : Bytes) × ((written : Bytes) (random : Reader)
        → seal_loop fuel c key prefix size counter (at random content written)
          ≡ (ok tt, at random [] (written ++ body)))
      × Opens counter body content
      × Cuts c key prefix size counter body content

  module _ (size : ℕ) (low : 1 ≤ size) (high : size ≤ 2 ^ 30) where
    chunk-Opens :
        (counter : ℕ) (plain : Bytes)
        → length plain < size
        → Opens counter (chunk c key prefix counter plain true) plain
    chunk-Opens counter plain h zero rest written random enough = absurd (omega arith)
    chunk-Opens counter plain h (suc n) rest written random enough =
        ap (λ t. open_loop (suc n) c key prefix counter (at random t written))
          (append_assoc (len_field (length (ct_of c key prefix counter plain true)) true)
            (ct_of c key prefix counter plain true) rest)
        ∙ open_turn c key prefix n counter plain rest written true random (omega arith)

    append-Opens :
        (counter : ℕ) (plain content body : Bytes)
        → length plain ≡ size
        → Opens ((counter + 1) % 2 ^ 32) body content
        → Opens counter (chunk c key prefix counter plain false ++ body) (plain ++ content)
    append-Opens counter plain content body h next zero rest written random enough =
        absurd (omega arith)
    append-Opens counter plain content body h next (suc n) rest written random enough =
        let ct : Bytes = ct_of c key prefix counter plain false in
        let field : Bytes = len_field (length ct) false in
        ap (λ t. open_loop (suc n) c key prefix counter (at random t written))
          (append_assoc (field ++ ct) body rest ∙ append_assoc field ct (body ++ rest))
        ∙ open_turn c key prefix n counter plain (body ++ rest) written false random (omega arith)
        ∙ next n rest (written ++ plain) random (
            omega (
              arith,
              length-append (field ++ ct) body,
              length-chunk c key prefix counter plain false (omega arith),
            ))
        ∙ ap (λ t. (ok tt, at random rest t)) (append_assoc written plain content)

    pub loop_inverse :
        (fuel counter : ℕ) (content : Bytes)
        → length content < fuel
        → Written fuel size counter content
    loop_inverse zero counter content h = absurd (omega arith)
    loop_inverse (suc fuel) counter content h = elim (Bool-cases (ltb (length content) size)) [
      | inl few ↦
          let short_chunk = ltb→lt _ _ few in
          (
            chunk c key prefix counter content true,
            λ written random. seal_last fuel size counter content written random short_chunk,
            chunk-Opens counter content short_chunk,
            chunk-Cuts c key prefix size counter content (omega arith) short_chunk,
          )
      | inr many ↦
          let plain : Bytes = take size content in
          let rest : Bytes = drop size content in
          let wide : size ≤ length content = ltb→le _ _ many in
          let long : length plain ≡ size = omega (arith, length-take size content) in
          let (body, written_by, opens, cuts) =
            loop_inverse fuel ((counter + 1) % 2 ^ 32) rest
              (omega (arith, length-drop size content)) in
          let whole : plain ++ rest ≡ content = take-append-drop size content in
          (
            chunk c key prefix counter plain false ++ body,
            λ written random.
                ap (λ t. seal_loop (suc fuel) c key prefix size counter (at random t written))
                  (sym whole)
                ∙ seal_turn fuel size counter plain rest written random long
                ∙ written_by (written ++ chunk c key prefix counter plain false) random
                ∙ ap (λ t. (ok tt, at random [] t))
                    (append_assoc written (chunk c key prefix counter plain false) body),
            subst (λ t. Opens counter (chunk c key prefix counter plain false ++ body) t) whole
                (append-Opens counter plain rest body long opens),
            subst
                (λ t.
                  Cuts c key prefix size counter (chunk c key prefix counter plain false ++ body) t)
                whole
                (append-Cuts c key prefix size counter plain rest body (omega arith) long cuts),
          )
    ]
