-- ===== src/Stream/Sound.antt =====
-- What `OpenStream` answers on any input.
use crypt.Base.{
  ℕ, suc, ◌≤◌, ◌≡◌, ◌⊎◌, refl, sym, ap, ◌∙◌, [], ◌∷◌, ◌++◌, false, Bool-cases, inl, inr, ltb, ◌==◌,
  ==→eq, ltb→lt, ltb→le, length, take, drop, arith, length-append, length-take, take-append-drop,
  same, same→eq, All-drop,
}
use crypt.Base.Outcome.{
  Error, ok, err, first, slice-append, invalid_key, invalid_ciphertext, unsupported_version,
}
use crypt.Wire.{Bytes, IsByte, IsBytes}
use crypt.Entropy.{Reader, read_full}
use crypt.Cipher.{Aead}
use crypt.Stream.{Ends, stream_magic, stream_version}
use crypt.Stream.Open.{filled, open_stream}
use crypt.Stream.Fields.{at, read_full-append, read_full_short}
use crypt.Stream.RoundTrip.{header, open_header}
use crypt.Stream.Accepts.{IsChunksFrom, open_loop-cases}

module _ (c : Aead) (key : Bytes) (random : Reader) where
  -- An input that is a header and chunks, which `OpenStream` reads to the marked one.
  abbrev pub Streamed : Bytes → Bytes → Type 0
  Streamed input written =
      (prefix : Bytes) × (body : Bytes) × (content : Bytes) × (rest : Bytes) × (length key ≡ 32)
      × (length prefix ≡ 8)
      × (input ≡ header prefix ++ body)
      × IsChunksFrom c key prefix 0 body content rest
      × (open_stream c key (at random input written) ≡ (ok tt, at random rest (written ++ content)))

  abbrev pub Failed : Bytes → Bytes → Type 0
  Failed input written =
      (e : Error) × (s : Ends) × (open_stream c key (at random input written) ≡ (err e, s))

  behind_header :
      (prefix body input written : Bytes)
      → length key ≡ 32
      → length prefix ≡ 8
      → input ≡ header prefix ++ body
      → IsBytes body
      → Failed input written ⊎ Streamed input written
  behind_header prefix body input written hk long shape bytes =
      let opened =
        ap (λ t. open_stream c key (at random t written)) shape
        ∙ open_header c key hk prefix body written random long in
      elim (open_loop-cases c key prefix random (suc (length (header prefix ++ body))) 0 body
        written bytes (omega (arith, length-append (header prefix) body))) [
          | inl (e, s, failed) ↦ inl (e, s, opened ∙ failed)
          | inr (content, rest, chunks, done) ↦
              inr (prefix, body, content, rest, hk, long, shape, chunks, opened ∙ done)
        ]

  -- Thirteen bytes or more, the first five written out.
  with_header :
      (a b d e v : ℕ) (more written : Bytes)
      → length key ≡ 32
      → 8 ≤ length more
      → IsBytes more
      → Failed (a ∷ b ∷ d ∷ e ∷ v ∷ more) written ⊎ Streamed (a ∷ b ∷ d ∷ e ∷ v ∷ more) written
  unfolding open_stream filled first
  with_header a b d e v more written hk enough bytes =
      let prefix : Bytes = take 8 more in
      let magic : Bytes = a ∷ b ∷ d ∷ e ∷ [] in
      let long : length prefix ≡ 8 = omega (arith, length-take 8 more) in
      let whole : prefix ++ drop 8 more ≡ more = take-append-drop 8 more in
      let got =
        ap (λ t. read_full 13 (record { content = magic ++ (v ∷ t); faulty = false })) (sym whole)
        ∙ read_full-append 13 (magic ++ (v ∷ prefix)) (drop 8 more) (omega arith) in
      let read_magic = slice-append 0 4 [] magic (v ∷ prefix) refl refl in
      let read_version = slice-append 4 5 magic (v ∷ []) prefix refl refl in
      elim (Bool-cases (same magic stream_magic)) [
        | inr other ↦ inl (
          invalid_ciphertext,
          at random (drop 8 more) written,
          rw (hk, got, read_magic, other) refl,
        )
        | inl e1 ↦ elim (Bool-cases (v == stream_version)) [
          | inr other ↦ inl (
            unsupported_version,
            at random (drop 8 more) written,
            rw (hk, got, read_magic, e1, read_version, other) refl,
          )
          | inl e2 ↦
              behind_header prefix (drop 8 more) (magic ++ (v ∷ more)) written hk long
                (ap (λ t. magic ++ (v ∷ t)) (sym whole)
                  ∙ ap (λ t. t ++ (v ∷ (prefix ++ drop 8 more))) (same→eq magic stream_magic e1)
                  ∙ ap (λ t. stream_magic ++ (t ∷ (prefix ++ drop 8 more)))
                      (==→eq v stream_version e2))
                (All-drop IsByte 8 more bytes)
        ]
      ]

  long_enough :
      (input written : Bytes)
      → length key ≡ 32
      → 13 ≤ length input
      → IsBytes input
      → Failed input written ⊎ Streamed input written
  long_enough (a ∷ b ∷ d ∷ e ∷ v ∷ more) written hk enough (_, (_, (_, (_, (_, bytes))))) =
      with_header a b d e v more written hk (omega arith) bytes
  long_enough input written hk enough bytes = absurd (omega arith)

  -- On every input of bytes that ends without an error, and with an output that never fails,
  -- `OpenStream` returns an error, or the key has 32 bytes and the input is a header, chunks that
  -- were sealed with the key and the nonce prefix of the header for the positions 0, 1, and so on,
  -- the last of them and no other marked as the last, and a rest that is left unread; then it
  -- returns no error and has written the plaintexts of the chunks in order. It never panics.
  pub open_stream-cases :
      (input written : Bytes) → IsBytes input → Failed input written ⊎ Streamed input written
  unfolding open_stream filled
  open_stream-cases input written bytes = elim (Bool-cases (length key == 32)) [
    | inr other ↦ inl (invalid_key, at random input written, rw other refl)
    | inl hk ↦ elim (Bool-cases (ltb (length input) 13)) [
      | inl few ↦ inl (
        invalid_ciphertext,
        at random [] written,
        rw (hk, read_full_short 13 input (ltb→lt _ _ few)) refl,
      )
      | inr many ↦
          let wide : 13 ≤ length input = ltb→le _ _ many in
          long_enough input written (==→eq (length key) 32 hk) wide bytes
    ]
  ]
