-- ===== src/Stream/Accepts.antt =====
-- What `OpenStream` accepts.
use crypt.Base.{
  ℕ, zero, suc, ◌+◌, ◌*◌, ◌%◌, ◌^◌, ◌≤◌, ◌<◌, ◌≡◌, ◌⊎◌, refl, sym, ap, ◌∙◌, [], ◌∷◌, ◌++◌,
  append_assoc, Bool, true, false, Bool-cases, Option-cases, inl, inr, leb, ltb, ltb→lt, ltb→le,
  length, take, drop, if◌then◌else◌, arith, length-append, length-take, take-append-drop,
  All-append_right,
}
use crypt.Base.Outcome.{Error, ok, err, first, truncated, invalid_ciphertext, tampered}
use crypt.Wire.{Bytes, IsByte, IsBytes, put_u32, u32}
use crypt.Entropy.{Reader, full, read_full}
use crypt.Cipher.{Aead, open_with_12}
use crypt.Stream.{Ends, lift, make_stream_nonce, stream_aad}
use crypt.Stream.Seal.{len_field}
use crypt.Stream.Open.{field_of, filled, len_of, open_loop}
use crypt.Stream.Fields.{
  at, read_full-append, read_full_short, length-make_stream_nonce, length-len_field,
}
use crypt.Stream.Chunk.{chunk, ct_of}
use mathlib.Core.Path.{subst}

len_field-len_of :
    (a b d e : ℕ)
    → IsBytes (a ∷ b ∷ d ∷ e ∷ [])
    → len_field (a % 128 * 2 ^ 24 + b * 2 ^ 16 + d * 2 ^ 8 + e) (leb 128 a) ≡ a ∷ b ∷ d ∷ e ∷ []
unfolding len_field put_u32
len_field-len_of a b d e h = elim (Bool-cases (leb 128 a)) [
  | inl high ↦ ground (arith, high)
  | inr low ↦ ground (arith, low)
]

module _ (c : Aead) (key prefix : Bytes) where
  -- A turn of the opening loop fails, or takes a chunk off the input that was sealed for this
  -- position and for the mark that it has.
  abbrev Turn : ℕ → ℕ → Reader → Bytes → Bytes → Type 0
  Turn fuel counter random input written =
      ((e : Error) × (s : Ends) × (open_loop (suc fuel) c key prefix counter
            (at random input written)
          ≡ (err e, s)))
      ⊎ ((plain : Bytes) × (last : Bool) × (rest : Bytes) × (input
            ≡ chunk c key prefix counter plain last ++ rest)
          × (open_loop (suc fuel) c key prefix counter (at random input written)
              ≡ (if last
                    then lift (ok tt)
                    else open_loop fuel c key prefix ((counter + 1) % 2 ^ 32))
                  (at random rest (written ++ plain))))

  open_loop-Turn :
      (fuel counter : ℕ) (random : Reader) (input written : Bytes)
      → IsBytes input
      → Turn fuel counter random input written
  unfolding open_loop field_of filled first len_of u32
  open_loop-Turn fuel counter random (a ∷ b ∷ d ∷ e ∷ more) written (ha, (hb, (hd, (he, bytes)))) =
      let n : ℕ = a % 128 * 2 ^ 24 + b * 2 ^ 16 + d * 2 ^ 8 + e in
      let field = read_full-append 4 (a ∷ b ∷ d ∷ e ∷ []) more refl in
      let nonce = make_stream_nonce prefix counter in
      let aad = stream_aad counter (leb 128 a) in
      elim (Bool-cases (ltb (length more) n)) [
        | inl few ↦ inl (
          invalid_ciphertext,
          at random [] written,
          rw (field, read_full_short n more (ltb→lt _ _ few)) refl,
        )
        | inr many ↦
            let ct : Bytes = take n more in
            let wide : n ≤ length more = ltb→le _ _ many in
            let long : length ct ≡ n = omega (arith, length-take n more) in
            let cut = read_full-append n ct (drop n more) long in
            let whole : ct ++ drop n more ≡ more = take-append-drop n more in
            let read_ct =
              subst
                (λ t.
                  read_full n (record { content = t; faulty = false })
                  ≡ (full ct, record { content = drop n more; faulty = false }))
                whole cut in
            let opening =
              open_with_12 c key nonce ct aad (length-make_stream_nonce prefix counter) in
            elim (Option-cases (c.open_ key nonce ct aad)) [
              | inl bad ↦ inl (
                tampered,
                at random (drop n more) written,
                rw (field, read_ct, opening, bad) refl,
              )
              | inr (plain, good) ↦
                  let sealed = c.seal-open key nonce ct aad plain good in
                  inr (
                    plain,
                    leb 128 a,
                    drop n more,
                    sym (
                        ap (λ t. (len_field (length t) (leb 128 a) ++ t) ++ drop n more) sealed
                        ∙ ap (λ m. (len_field m (leb 128 a) ++ ct) ++ drop n more) long
                        ∙ ap (λ t. (t ++ ct) ++ drop n more)
                            (len_field-len_of a b d e (ha, (hb, (hd, (he, tt)))))
                        ∙ ap (λ t. a ∷ b ∷ d ∷ e ∷ t) whole),
                    rw (field, read_ct, opening, good) refl,
                  )
            ]
      ]
  open_loop-Turn fuel counter random input written bytes =
      inl (truncated, at random [] written, rw (read_full_short 4 input (omega arith)) refl)

  -- `IsChunksFrom counter input content rest`: `input` is chunks sealed with the key for the
  -- positions from `counter` on, the last of them marked and no other, and `rest` behind them;
  -- `content` is their plaintexts in order.
  pub data IsChunksFrom : ℕ → Bytes → Bytes → Bytes → Type 0 where
    last_chunk :
        (counter : ℕ) (plain rest : Bytes)
        → IsChunksFrom counter (chunk c key prefix counter plain true ++ rest) plain rest
    more_chunks :
        (counter : ℕ) (plain input content rest : Bytes)
        → IsChunksFrom ((counter + 1) % 2 ^ 32) input content rest
        → IsChunksFrom counter
            (chunk c key prefix counter plain false ++ input)
            (plain ++ content)
            rest

  -- The loop fails, or reads chunks up to a marked one and writes their plaintexts.
  abbrev pub Outcome : ℕ → ℕ → Reader → Bytes → Bytes → Type 0
  Outcome fuel counter random input written =
      ((e : Error) × (s : Ends) × (open_loop fuel c key prefix counter (at random input written)
          ≡ (err e, s)))
      ⊎ ((content : Bytes) × (rest : Bytes) × IsChunksFrom counter input content rest
          × (open_loop fuel c key prefix counter (at random input written)
              ≡ (ok tt, at random rest (written ++ content))))

  module _ (random : Reader) where
    after_turn :
        (fuel counter : ℕ) (input written plain rest : Bytes) (last : Bool)
        → input ≡ chunk c key prefix counter plain last ++ rest
        → open_loop (suc fuel) c key prefix counter (at random input written)
          ≡ (if last then lift (ok tt) else open_loop fuel c key prefix ((counter + 1) % 2 ^ 32))
              (at random rest (written ++ plain))
        → Outcome fuel ((counter + 1) % 2 ^ 32) random rest (written ++ plain)
        → Outcome (suc fuel) counter random input written
    after_turn fuel counter input written plain rest true shape turn next = inr (
      plain,
      rest,
      subst (λ t. IsChunksFrom counter t plain rest) (sym shape) (last_chunk counter plain rest),
      turn,
    )
    after_turn fuel counter input written plain rest false shape turn (inl (e, s, failed)) =
        inl (e, s, turn ∙ failed)
    after_turn fuel counter input written plain rest false shape turn
          (inr (content, rest', chunks, opened)) =
        inr (
          plain ++ content,
          rest',
          subst (λ t. IsChunksFrom counter t (plain ++ content) rest') (sym shape)
              (more_chunks counter plain rest content rest' chunks),
          turn ∙ opened ∙ ap (λ t. (ok tt, at random rest' t)) (append_assoc written plain content),
        )

    pub open_loop-cases :
        (fuel counter : ℕ) (input written : Bytes)
        → IsBytes input
        → length input < fuel
        → Outcome fuel counter random input written
    open_loop-cases zero counter input written bytes enough = absurd (omega arith)
    open_loop-cases (suc fuel) counter input written bytes enough =
        elim (open_loop-Turn fuel counter random input written bytes) [
          | inl failed ↦ inl failed
          | inr (plain, last, rest, shape, turn) ↦
              let behind =
                All-append_right IsByte (chunk c key prefix counter plain last) rest
                  (subst IsBytes shape bytes) in
              after_turn fuel counter input written plain rest last shape turn (
                open_loop-cases fuel ((counter + 1) % 2 ^ 32) rest (written ++ plain) behind (
                  omega (
                    arith,
                    ap (λ (t : Bytes). length t) shape,
                    length-append (chunk c key prefix counter plain last) rest,
                    length-append (len_field (length (ct_of c key prefix counter plain last)) last)
                        (ct_of c key prefix counter plain last),
                    length-len_field (length (ct_of c key prefix counter plain last)) last,
                  )))
        ]
