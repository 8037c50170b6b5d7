-- ===== src/Cbc/Padding.antt =====
-- cbc.go: `pad` and `unpad`.
use crypt.Base.{
  ℕ, suc, zero, ◌+◌, ◌-◌, ◌%◌, ◌≤◌, ◌≡◌, ◌≢◌, ◌↔◌, refl, sym, ap, ◌∙◌, append_assoc, le→ltb, eq→==,
  ne→==, [], ◌∷◌, ◌++◌, Bool, true, ◌||◌, ◌&&◌, not, length, ltb, ◌==◌, take, drop, replicate,
  arith, length-append, length-replicate, length-take, length-drop, drop-append, take-append-drop,
  Bool-cases, inl, inr, All-append, All-replicate,
}
use crypt.Base.Outcome.{
  Result, ok, panic, guard, ◌>>=◌, ◌>>◌, first, slice, slice_from, slice-in_range, slice-append,
  slice_from-append, slice_from-in_range, invalid_padding,
}
use crypt.Wire.{Bytes, IsByte, IsBytes}
use mathlib.Core.Path.{subst}

-- `pad`, which never fails
unfoldable pub pad : Bytes → ℕ → Bytes
pad buf size = let pad_len = size - length buf % size in buf ++ replicate pad_len (pad_len % 256)

-- The loop over the last bytes.
unfoldable pub all_are : ℕ → Bytes → Bool
all_are p [] = true
all_are p (b ∷ bs) = b == p && all_are p bs

-- `unpad`
unfoldable pub unpad : Bytes → ℕ → Result Bytes
unpad buf size = do
  guard (not (length buf == 0 || not (length buf % size == 0))) invalid_padding
  last ← slice_from (length buf - 1) buf
  p ← first last
  guard (not (p == 0 || ltb size p || ltb (length buf) p)) invalid_padding
  guard (all_are p (drop (length buf - p) buf)) invalid_padding
  slice 0 (length buf - p) buf

all_are-replicate : (p n : ℕ) → all_are p (replicate n p) ≡ true
unfolding all_are
all_are-replicate p zero = refl
all_are-replicate p (suc n) = ground (arith, all_are-replicate p n)

all_are→replicate : (p : ℕ) (bs : Bytes) → all_are p bs ≡ true → bs ≡ replicate (length bs) p
unfolding all_are
all_are→replicate p [] h = refl
all_are→replicate p (b ∷ bs) h = ground (arith, all_are→replicate p bs)

replicate_last : (n p : ℕ) → replicate (suc n) p ≡ replicate n p ++ (p ∷ [])
replicate_last zero p = refl
replicate_last (suc n) p = ap (λ t. p ∷ t) (replicate_last n p)

-- The last byte behind a run of at least one.
last_of_run :
    (buf : Bytes) (p n : ℕ)
    → 1 ≤ n
    → slice_from (length (buf ++ replicate n p) - 1) (buf ++ replicate n p) ≡ ok (p ∷ [])
last_of_run buf p zero h = absurd (omega arith)
last_of_run buf p (suc n) h =
    subst (λ t. slice_from (length t - 1) t ≡ ok (p ∷ []))
      (append_assoc buf (replicate n p) (p ∷ []) ∙ ap (λ t. buf ++ t) (sym (replicate_last n p)))
      (slice_from-append (length ((buf ++ replicate n p) ++ (p ∷ [])) - 1) (buf ++ replicate n p)
        (p ∷ []) (omega (arith, length-append (buf ++ replicate n p) (p ∷ []))))

module _ (buf : Bytes) (p size : ℕ) (low : 1 ≤ p) (high : p ≤ size)
    (whole : (length buf + p) % size ≡ 0) where
  -- A run of `p` bytes `p` that fills the last block is taken off.
  unpad_run : unpad (buf ++ replicate p p) size ≡ ok buf
  unfolding unpad first
  unpad_run =
      let all : Bytes = buf ++ replicate p p in
      let long : length all ≡ length buf + p =
        omega (arith, length-append buf (replicate p p), length-replicate p p) in
      let aligned : length all % size ≡ 0 = rw long whole in
      let cut : length all - p ≡ length buf = omega arith in
      rw
        (
          ne→== (length all) 0 (λ (e : length all ≡ 0). omega arith),
          eq→== (length all % size) 0 aligned,
          last_of_run buf p p low,
          ne→== p 0 (λ (e : p ≡ 0). omega arith),
          le→ltb size p high,
          le→ltb (length all) p (omega arith),
          cut,
          drop-append (length buf) buf (replicate p p) refl,
          all_are-replicate p p,
          slice-append 0 (length buf) [] buf (replicate p p) refl (omega arith),
        )
        refl

-- Unpadding a padded text gives the text, which was not cut.
pub unpad-pad : (buf : Bytes) → unpad (pad buf 16) 16 ≡ ok buf
unfolding pad
unpad-pad buf =
    let n : ℕ = 16 - length buf % 16 in
    let byte : n % 256 ≡ n = omega arith in
    rw byte (unpad_run buf n 16 (omega arith) (omega arith) (omega arith))

pub length-pad : (buf : Bytes) → length (pad buf 16) ≡ length buf + (16 - length buf % 16)
unfolding pad
length-pad buf =
    let n : ℕ = 16 - length buf % 16 in
    omega (arith, length-append buf (replicate n (n % 256)), length-replicate n (n % 256))

pub pad-IsBytes : (buf : Bytes) → IsBytes buf → IsBytes (pad buf 16)
unfolding pad
pad-IsBytes buf h =
    let n : ℕ = 16 - length buf % 16 in
    All-append IsByte buf (replicate n (n % 256)) h (All-replicate IsByte n (n % 256) (omega arith))

-- What passed the tests of `unpad` is a text behind its padding.
passed :
    (buf out : Bytes) (p : ℕ)
    → length buf % 16 ≡ 0
    → 1 ≤ p
    → p ≤ 16
    → p ≤ length buf
    → all_are p (drop (length buf - p) buf) ≡ true
    → out ≡ take (length buf - p) buf
    → buf ≡ pad out 16
unfolding pad
passed buf out p aligned low high enough run cut =
    let k : ℕ = length buf - p in
    let tail_len : length (drop k buf) ≡ p = omega (arith, length-drop k buf) in
    let size : length out ≡ k =
      omega (arith, ap (λ (t : Bytes). length t) cut, length-take k buf) in
    let same_run : drop k buf ≡ replicate p p =
      all_are→replicate p (drop k buf) run ∙ ap (λ (t : ℕ). replicate t p) tail_len in
    let n : 16 - length out % 16 ≡ p = omega arith in
    let byte : p % 256 ≡ p = omega arith in
    sym (take-append-drop k buf) ∙ rw (n, byte, same_run, cut) refl

unpad_passed : (buf out : Bytes) → unpad buf 16 ≡ ok out → buf ≡ pad out 16
unfolding unpad first
unpad_passed buf out h = elim (Bool-cases (length buf == 0 || not (length buf % 16 == 0))) [
  | inl bad ↦ cc (rw bad at h)
  | inr good ↦
      let last = slice_from-in_range (length buf - 1) buf (omega arith) in
      go (ground arith) (drop (length buf - 1) buf) (rw (good, last) at h)
]
  where
    go :
        length buf % 16 ≡ 0
        → (tail : Bytes)
        → (first tail >>= λ p.
            guard (not (p == 0 || ltb 16 p || ltb (length buf) p)) invalid_padding
            >> (guard (all_are p (drop (length buf - p) buf)) invalid_padding
                >> slice 0 (length buf - p) buf))
          ≡ ok out
        → buf ≡ pad out 16
    go aligned [] e = cc
    go aligned (p ∷ rest) e = elim (Bool-cases (p == 0 || ltb 16 p || ltb (length buf) p)) [
      | inl bad ↦ cc (rw bad at e)
      | inr good ↦ elim (Bool-cases (all_are p (drop (length buf - p) buf))) [
        | inr other ↦ cc (rw (good, other) at e)
        | inl run ↦
            let cut = slice-in_range 0 (length buf - p) buf (omega arith) (omega arith) in
            let seen = rw (good, run, cut) at e in
            passed buf out p aligned (ground arith) (ground arith) (ground arith) run
              (ground (arith, seen))
      ]
    ]

-- `unpad` accepts exactly what `pad` makes: a text of whole blocks unpads to `out` if and only if
-- it is `out` behind its padding.
pub unpad_iff : (buf out : Bytes) → (unpad buf 16 ≡ ok out) ↔ (buf ≡ pad out 16)
unpad_iff buf out =
    (unpad_passed buf out, λ e. subst (λ t. unpad t 16 ≡ ok out) (sym e) (unpad-pad out))

-- `unpad` never panics.
pub unpad-ne-panic : (buf : Bytes) → unpad buf 16 ≢ panic
unfolding unpad first
unpad-ne-panic buf h = elim (Bool-cases (length buf == 0 || not (length buf % 16 == 0))) [
  | inl bad ↦ cc (rw bad at h)
  | inr good ↦
      let last = slice_from-in_range (length buf - 1) buf (omega arith) in
      go (drop (length buf - 1) buf) (ground (arith, length-drop (length buf - 1) buf))
        (rw (good, last) at h)
]
  where
    go :
        (tail : Bytes)
        → 1 ≤ length tail
        → (first tail >>= λ p.
            guard (not (p == 0 || ltb 16 p || ltb (length buf) p)) invalid_padding
            >> (guard (all_are p (drop (length buf - p) buf)) invalid_padding
                >> slice 0 (length buf - p) buf))
          ≢ panic
    go [] few e = omega arith
    go (p ∷ rest) few e = elim (Bool-cases (p == 0 || ltb 16 p || ltb (length buf) p)) [
      | inl bad ↦ cc (rw bad at e)
      | inr good ↦ elim (Bool-cases (all_are p (drop (length buf - p) buf))) [
        | inr other ↦ cc (rw (good, other) at e)
        | inl run ↦
            let cut = slice-in_range 0 (length buf - p) buf (omega arith) (omega arith) in
            cc (rw (good, run, cut) at e)
      ]
    ]
