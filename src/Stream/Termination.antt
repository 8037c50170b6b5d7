-- ===== src/Stream/Termination.antt =====
-- `SealStream` and `OpenStream` end without a panic on every input and output, failing ones too.
use crypt.Base.{
  ℕ, zero, suc, ◌+◌, ◌%◌, ◌^◌, ◌≤◌, ◌<◌, ◌≡◌, ◌≢◌, refl, inl, inr, [], ◌∷◌, Bool, true, false,
  Bool-cases, Option-cases, ltb, leb, ltb→lt, ltb→le, length, take, drop, length-take, length-drop,
  arith, if◌then◌else◌,
}
use crypt.Base.Outcome.{ok, panic, ok-ne-panic, first, slice-in_range}
use crypt.Base.{◌==◌, ==→eq, same}
use crypt.Base.Int.{ℤ, is_positive, magnitude, positive-magnitude}
use crypt.Wire.{Bytes, u32_total}
use crypt.Entropy.Laws.{draw-enough, draw_short}
use crypt.Entropy.{Filled, full, short, fault}
use crypt.Cipher.{Aead, new_gcm_32, open_with, seal_with_12, open_with_12}
use crypt.Stream.{
  Ends, Streaming, lift, write, ◌>>◌, make_stream_nonce, stream_aad, stream_magic, stream_version,
}
use crypt.Stream.Seal.{chunk_of, len_field, seal_loop, seal_stream}
use crypt.Stream.Open.{field_of, filled, len_of, open_loop, open_stream}
use crypt.Stream.Steps.{read_full-cases, write_step}
use crypt.Stream.Fields.{length-make_stream_nonce}

-- Four bytes have a first one, and hold a length.
field_parts :
    (field : Bytes)
    → length field ≡ 4
    → (top : ℕ) × (size : ℕ) × (first field ≡ ok top) × (len_of top field ≡ ok size)
unfolding first len_of
field_parts [] four = absurd (omega arith)
field_parts (top ∷ rest) four =
    let (size, total) = u32_total (top % 128 ∷ rest) (omega arith) in (top, size, refl, total)

module _ (gcm : Aead) (key prefix : Bytes) where
  -- One more turn than the input has bytes is enough.
  seal_loop-ne-panic :
      (fuel size counter : ℕ) (s : Ends)
      → 1 ≤ size
      → length s.input.content < fuel
      → (seal_loop fuel gcm key prefix size counter s).0 ≢ panic
  unfolding seal_loop chunk_of
  seal_loop-ne-panic zero size counter s low enough = absurd (omega arith)
  seal_loop-ne-panic (suc fuel) size counter s low enough =
      let nonce : Bytes = make_stream_nonce prefix counter in
      let sealed = λ (b : Bytes) (last : Bool).
        seal_with_12 gcm key nonce b (stream_aad counter last)
          (length-make_stream_nonce prefix counter) in
      let ct = λ (b : Bytes) (last : Bool). gcm.seal key nonce b (stream_aad counter last) in
      elim (read_full-cases size s.input) [
        | inl (b, long, some_left, e) ↦
            let next = seal_loop fuel gcm key prefix size ((counter + 1) % 2 ^ 32) in
            let s1 : Ends = record s {
              input = record s.input { content = drop size s.input.content };
            } in
            rw (seal_loop, e, sealed b false)
              (write_step (len_field (length (ct b false)) false) s1 (write (ct b false) >> next)
                λ s2 same2. write_step (ct b false) s2 next λ s3 same3.
                  seal_loop-ne-panic fuel size ((counter + 1) % 2 ^ 32) s3 low
                    (omega (arith, length-drop size s.input.content)))
        | inr (inl (b, e)) ↦
            let s1 : Ends = record s { input = record s.input { content = [] } } in
            rw (seal_loop, e, sealed b true)
              (write_step (len_field (length (ct b true)) true) s1
                (write (ct b true) >> lift (ok tt))
                λ s2 same2. write_step (ct b true) s2 (lift (ok tt)) λ s3 same3. ok-ne-panic tt)
        | inr (inr e) ↦ rw (seal_loop, e) cc
      ]

  field_of-ne-panic : (got : Filled) → field_of got ≢ panic
  unfolding field_of
  field_of-ne-panic (full b) = cc
  field_of-ne-panic (short b) = cc
  field_of-ne-panic fault = cc

  -- The same for the other loop.
  open_loop-ne-panic :
      (fuel counter : ℕ) (s : Ends)
      → length s.input.content < fuel
      → (open_loop fuel gcm key prefix counter s).0 ≢ panic
  unfolding open_loop field_of filled
  open_loop-ne-panic zero counter s enough = absurd (omega arith)
  open_loop-ne-panic (suc fuel) counter s enough = elim (read_full-cases 4 s.input) [
    | inr (inl (b, e)) ↦ rw (open_loop, e) cc
    | inr (inr e) ↦ rw (open_loop, e) cc
    | inl (field, four, some_left, e) ↦
        let (top, size, tops, sizes) = field_parts field four in
        let next = open_loop fuel gcm key prefix ((counter + 1) % 2 ^ 32) in
        let rest : Streaming (Unit {0}) = if leb 128 top then lift (ok tt) else next in
        let s1 : Ends = record s { input = record s.input { content = drop 4 s.input.content } } in
        elim (read_full-cases size s1.input) [
          | inr (inl (b, e2)) ↦ rw (open_loop, e, tops, sizes, e2) cc
          | inr (inr e2) ↦ rw (open_loop, e, tops, sizes, e2) cc
          | inl (ct, long, more_left, e2) ↦
              elim (Option-cases (
                gcm.open_ key (make_stream_nonce prefix counter) ct
                  (stream_aad counter (leb 128 top)))) [
                    | inl refused ↦
                        rw (open_loop, e, tops, sizes, e2, opens ct counter (leb 128 top), refused)
                          cc
                    | inr (plain, opened) ↦
                        rw (open_loop, e, tops, sizes, e2, opens ct counter (leb 128 top), opened)
                          (write_step plain
                            (record s {
                              input = record s.input {
                                content = drop size (drop 4 s.input.content);
                              };
                            })
                            rest
                            λ s2 same2. elim (Bool-cases (leb 128 top)) [
                              | inl last ↦ rw last (ok-ne-panic tt)
                              | inr more ↦ rw more (
                                  open_loop-ne-panic fuel ((counter + 1) % 2 ^ 32) s2 (
                                    omega (
                                      arith,
                                      length-drop 4 s.input.content,
                                      length-drop size (drop 4 s.input.content),
                                    )))
                            ])
                  ]
        ]
  ]
    where
      opens :
          (ct : Bytes) (counter : ℕ) (last : Bool)
          → open_with gcm key (make_stream_nonce prefix counter) ct (stream_aad counter last)
            ≡ ok (gcm.open_ key (make_stream_nonce prefix counter) ct (stream_aad counter last))
      opens ct counter last =
          open_with_12 gcm key (make_stream_nonce prefix counter) ct (stream_aad counter last)
            (length-make_stream_nonce prefix counter)

first_total : (s : Bytes) → 1 ≤ length s → (b : ℕ) × (first s ≡ ok b)
unfolding first
first_total [] h = absurd (omega arith)
first_total (b ∷ bs) h = (b, refl)

module _ (gcm : Aead) (key : Bytes) where
  seal_stream-ne-panic : (n : ℤ) (s : Ends) → (seal_stream gcm key n s).0 ≢ panic
  unfolding seal_stream
  seal_stream-ne-panic n s = elim (Bool-cases (length key == 32)) [
    | inr no_key ↦ rw (seal_stream, no_key) cc
    | inl key_32 ↦ elim (Bool-cases (is_positive n)) [
      | inr low ↦ rw (seal_stream, key_32, low) cc
      | inl high ↦ elim (Bool-cases (leb (magnitude n) (2 ^ 30))) [
        | inr far ↦ rw (seal_stream, key_32, high, far) cc
        | inl near ↦ elim (Bool-cases (ltb (length s.random.content) 8)) [
          | inl few ↦
              rw
                (
                  seal_stream,
                  key_32,
                  high,
                  near,
                  new_gcm_32 key (==→eq _ _ key_32),
                  draw_short 8 s.random (ltb→lt (length s.random.content) 8 few),
                )
                cc
          | inr enough ↦
              let prefix : Bytes = take 8 s.random.content in
              let loop = seal_loop (suc (length s.input.content)) gcm key prefix (magnitude n) 0 in
              let s1 : Ends = record s {
                random = record s.random { content = drop 8 s.random.content };
              } in
              rw
                (
                  seal_stream,
                  key_32,
                  high,
                  near,
                  new_gcm_32 key (==→eq _ _ key_32),
                  draw-enough 8 s.random (ltb→le (length s.random.content) 8 enough),
                )
                (write_step stream_magic s1 (write (stream_version ∷ []) >> (write prefix >> loop))
                  λ s2 same2. write_step (stream_version ∷ []) s2 (write prefix >> loop) λ s3 same3.
                    write_step prefix s3 loop λ s4 same4.
                      seal_loop-ne-panic gcm key prefix (suc (length s.input.content)) (magnitude n)
                        0 s4 (positive-magnitude n high) (omega arith))
        ]
      ]
    ]
  ]

  open_stream-ne-panic : (s : Ends) → (open_stream gcm key s).0 ≢ panic
  unfolding open_stream filled
  open_stream-ne-panic s = elim (Bool-cases (length key == 32)) [
    | inr no_key ↦ rw (open_stream, no_key) cc
    | inl key_32 ↦ elim (read_full-cases 13 s.input) [
      | inr (inl (b, e)) ↦ rw (open_stream, key_32, e) cc
      | inr (inr e) ↦ rw (open_stream, key_32, e) cc
      | inl (header, long, some_left, e) ↦
          let magic = slice-in_range 0 4 header (omega arith) (omega arith) in
          let tail = slice-in_range 4 5 header (omega arith) (omega arith) in
          let prefix = slice-in_range 5 13 header (omega arith) (omega arith) in
          let (version, top) =
            first_total (take 1 (drop 4 header))
              (omega (arith, length-take 1 (drop 4 header), length-drop 4 header)) in
          elim (Bool-cases (same (take 4 header) stream_magic)) [
            | inr other ↦ rw (open_stream, key_32, e, magic, other) cc
            | inl good ↦ elim (Bool-cases (version == 1)) [
              | inr old ↦ rw (open_stream, key_32, e, magic, good, tail, top, old) cc
              | inl current ↦
                  rw
                    (
                      open_stream,
                      key_32,
                      e,
                      magic,
                      good,
                      tail,
                      top,
                      current,
                      prefix,
                      new_gcm_32 key (==→eq _ _ key_32),
                    )
                    (open_loop-ne-panic gcm key (take 8 (drop 5 header))
                      (suc (length s.input.content)) 0
                      (record s { input = record s.input { content = drop 13 s.input.content } })
                      (omega (arith, length-drop 13 s.input.content)))
            ]
          ]
    ]
  ]

  -- `SealStream` and `OpenStream` end without a panic and without running out of turns, for every
  -- key, chunk size, random source, input and output, also where one of these fails at some point.
  pub streams_end :
      (n : ℤ) (s : Ends)
      → ((seal_stream gcm key n s).0 ≢ panic) × ((open_stream gcm key s).0 ≢ panic)
  streams_end n s = (seal_stream-ne-panic n s, open_stream-ne-panic s)
