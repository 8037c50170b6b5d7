-- ===== src/Stream/Cut.antt =====
-- `OpenStream` on a stream whose end is missing.
use native.Mathlib.Nat.{mod-eq_of_lt, div-eq_of_lt, add-mod_left, add-div_left, add-mul}
use mathlib.Core.Path.{subst}
use crypt.Base.{
  ◌*◌, ◌/◌, if◌then◌else◌, ℕ, zero, suc, ◌+◌, ◌-◌, ◌%◌, ◌^◌, ◌<◌, ◌≡◌, refl, sym, ap, ◌∙◌, [], ◌∷◌,
  ◌++◌, append_assoc, Bool, true, false, Bool-cases, inl, inr, ltb, ltb→lt, ltb→le, length, take,
  arith, length-append, length-take, take-append_less, take-append_more, append-nil,
}
use crypt.Base.Outcome.{Result, Error, err, first, truncated, invalid_ciphertext}
use crypt.Wire.{Bytes}
use crypt.Entropy.{Reader}
use crypt.Cipher.{Aead}
use crypt.Stream.{Ends, make_stream_nonce, stream_aad}
use crypt.Stream.Seal.{len_field}
use crypt.Stream.Open.{field_of, filled, open_loop}
use crypt.Stream.Fields.{at, read_full-append, read_full_short, len_of-len_field, length-len_field}
use crypt.Stream.Chunk.{ct_of, chunk, length-chunk, open_turn}

-- The error for the first `k` bytes of a body whose chunks have `size` bytes of content, and 20 more:
-- the cut is in front of a length field or in it, or behind one.
abbrev pub cut_error : ℕ → ℕ → Error
cut_error size k = if ltb (k % (size + 20)) 4 then truncated else invalid_ciphertext

-- How much of the content the chunks in front of the cut hold.
abbrev pub cut_content : ℕ → ℕ → ℕ
cut_content size k = k / (size + 20) * size

-- A cut in the first chunk.
first_cut : (size k : ℕ) → k < size + 20 → (k % (size + 20) ≡ k) × (cut_content size k ≡ 0)
first_cut size k inside =
    let none_done : k / (size + 20) ≡ 0 = div-eq_of_lt inside in
    (mod-eq_of_lt inside, rw none_done (omega arith))

-- A cut behind the first chunk.
later_cut :
    (size left : ℕ)
    → ((size + 20 + left) % (size + 20) ≡ left % (size + 20))
      × (cut_content size (size + 20 + left) ≡ size + cut_content size left)
later_cut size left =
    let one_more : (size + 20 + left) / (size + 20) ≡ left / (size + 20) + 1 =
      add-div_left left (omega arith) in
    let split = add-mul (left / (size + 20)) 1 size in
    (add-mod_left (size + 20) left, rw one_more (omega (arith, split)))

module _ (c : Aead) (key prefix : Bytes) where
  -- A turn on a part of a chunk.
  cut_turn :
      (fuel counter k : ℕ) (plain written : Bytes) (last : Bool) (random : Reader)
      → length plain < 2 ^ 31 - 16
      → k < length plain + 20
      → open_loop
          (suc fuel)
          c
          key
          prefix
          counter
          (at random (take k (chunk c key prefix counter plain last)) written)
        ≡ (err (if ltb k 4 then truncated else invalid_ciphertext), at random [] written)
  unfolding open_loop field_of filled first
  cut_turn fuel counter k plain written last random small inside =
      let ct : Bytes = ct_of c key prefix counter plain last in
      let size =
        c.length-seal key (make_stream_nonce prefix counter) plain (stream_aad counter last) in
      let field : Bytes = len_field (length ct) last in
      let four = length-len_field (length ct) last in
      let (top, tail, shape, three, mark, len) = len_of-len_field (length ct) last (omega arith) in
      elim (Bool-cases (ltb k 4)) [
        | inl few ↦
            let less = ltb→lt k 4 few in
            rw
              (
                read_full_short 4 (take k (field ++ ct))
                    (omega (arith, length-take k (field ++ ct))),
                few,
              )
              refl
        | inr many ↦
            let more = ltb→le k 4 many in
            rw
              (
                take-append_more k (k - 4) field ct (omega arith),
                shape,
                read_full-append 4 (top ∷ tail) (take (k - 4) ct) (omega arith),
                len,
                read_full_short (length ct) (take (k - 4) ct)
                    (omega (arith, length-take (k - 4) ct)),
                many,
              )
              refl
      ]

  -- The loop on the first `k` bytes of a body: an error, behind the content of whole chunks.
  abbrev pub Cuts : ℕ → ℕ → Bytes → Bytes → Type 0
  Cuts size counter body content =
      (n k : ℕ) (written : Bytes) (random : Reader)
      → k < length body
      → k < n
      → open_loop n c key prefix counter (at random (take k body) written)
        ≡ (err (cut_error size k), at random [] (written ++ take (cut_content size k) content))

  -- The same error and output for a cut in the first chunk.
  in_first :
      (size k : ℕ) (written content : Bytes) (random : Reader)
      → k < size + 20
      → ◌≡◌ {A = Result (Unit {0}) × Ends}
          (err (if ltb k 4 then truncated else invalid_ciphertext), at random [] written)
          (err (cut_error size k), at random [] (written ++ take (cut_content size k) content))
  in_first size k written content random inside =
      let (same_place, nothing) = first_cut size k inside in
      rw (same_place, nothing) (ap (λ t. (_, at random [] t)) (sym (append-nil written)))

  pub chunk-Cuts :
      (size counter : ℕ) (plain : Bytes)
      → size < 2 ^ 31 - 16
      → length plain < size
      → Cuts size counter (chunk c key prefix counter plain true) plain
  chunk-Cuts size counter plain small short zero k written random inside enough =
      absurd (omega arith)
  chunk-Cuts size counter plain small short (suc n) k written random inside enough =
      let whole = length-chunk c key prefix counter plain true (omega arith) in
      cut_turn n counter k plain written true random (omega arith) (omega arith)
      ∙ in_first size k written plain random (omega arith)

  pub append-Cuts :
      (size counter : ℕ) (plain content body : Bytes)
      → size < 2 ^ 31 - 16
      → length plain ≡ size
      → Cuts size ((counter + 1) % 2 ^ 32) body content
      → Cuts size counter (chunk c key prefix counter plain false ++ body) (plain ++ content)
  append-Cuts size counter plain content body small long next zero k written random inside enough =
      absurd (omega arith)
  append-Cuts size counter plain content body small long next (suc n) k written random inside
        enough =
      let ct : Bytes = ct_of c key prefix counter plain false in
      let this : Bytes = chunk c key prefix counter plain false in
      let whole_chunk = length-chunk c key prefix counter plain false (omega arith) in
      let whole = length-append this body in
      elim (Bool-cases (ltb k (length this))) [
        | inl few ↦
            let less = ltb→lt k (length this) few in
            ap (λ t. open_loop (suc n) c key prefix counter (at random t written))
              (take-append_less k this body (omega arith))
            ∙ cut_turn n counter k plain written false random (omega arith) (omega arith)
            ∙ in_first size k written (plain ++ content) random (omega arith)
        | inr many ↦
            let more = ltb→le k (length this) many in
            let left : ℕ = k - length this in
            let behind : size + 20 + left ≡ k = omega arith in
            let (same_place, one_more) = later_cut size left in
            let kept : ℕ = cut_content size left in
            let same_error : cut_error size left ≡ cut_error size k =
              ap (λ (t : ℕ). if ltb t 4 then truncated else invalid_ciphertext)
                (sym same_place ∙ ap (λ t. t % (size + 20)) behind) in
            let all_kept : length plain + kept ≡ cut_content size k =
              omega (arith, one_more, ap (cut_content size) behind) in
            ap (λ t. open_loop (suc n) c key prefix counter (at random t written))
              (take-append_more k left this body (omega arith)
                ∙ append_assoc (len_field (length ct) false) ct (take left body))
            ∙ open_turn c key prefix n counter plain (take left body) written false random
                (omega arith)
            ∙ next n left (written ++ plain) random (omega arith) (omega arith)
            ∙ ap (λ t. (err (cut_error size left), at random [] t))
                (append_assoc written plain (take kept content)
                  ∙ ap (λ t. written ++ t)
                      (sym (take-append_more (length plain + kept) kept plain content refl)))
            ∙ subst
                (λ m.
                  ◌≡◌ {A = Result (Unit {0}) × Ends}
                    (
                      err (cut_error size left),
                      at random [] (written ++ take (length plain + kept) (plain ++ content)),
                    )
                    (err (cut_error size k), at random [] (written ++ take m (plain ++ content))))
                all_kept
                (ap
                  (λ e. (
                    err e,
                    at random [] (written ++ take (length plain + kept) (plain ++ content)),
                  ))
                  same_error)
      ]
