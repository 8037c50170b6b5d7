-- ===== src/Entropy/Laws.antt =====
-- What a draw returns, and the lengths of random strings.
use crypt.Base.{
  ℕ, ◌+◌, ◌*◌, ◌/◌, ◌≤◌, ◌<◌, ◌≡◌, refl, length, take, drop, length-take, arith, All-take, All-drop,
  true,
}
use crypt.Base.Outcome.{ok, err}
use crypt.Base.Int.{ℤ, is_positive, magnitude}
use crypt.Base.Outcome.{random_failure}
use crypt.Base.{some, [], Bool-cases, inl, inr, lt→leb}
use crypt.Wire.{Bytes, IsByte, IsBytes}
use crypt.Wire.Base64
use crypt.Wire.Hex
use crypt.Entropy.{Reader, read_full, draw, random_bytes, random_token, random_hex}

-- A draw that succeeds delivers the next bytes of the source, and uses them up.
pub draw_ok :
    (n : ℕ) (r r' : Reader) (b : Bytes)
    → draw n r ≡ (ok b, r')
    → (length b ≡ n)
      × (b ≡ take n r.content)
      × (r'.content ≡ drop n r.content)
      × (n ≤ length r.content)
unfolding draw
draw_ok n r r' b h = ground (arith, length-take n r.content)

pub draw-enough :
    (n : ℕ) (r : Reader)
    → n ≤ length r.content
    → draw n r ≡ (ok (take n r.content), record r { content = drop n r.content })
unfolding draw
draw-enough n r h = ground arith

pub draw-IsBytes :
    (n : ℕ) (r r' : Reader) (b : Bytes)
    → IsBytes r.content
    → draw n r ≡ (ok b, r')
    → IsBytes b × IsBytes r'.content
draw-IsBytes n r r' b h e =
    let (_, p, q, _) = draw_ok n r r' b e in
    (rw p (All-take IsByte n r.content h), rw q (All-drop IsByte n r.content h))

-- A draw never panics, and fails only when the source is used up.
random_token_lem :
    (n : ℤ) (r : Reader)
    → IsBytes r.content
    → is_positive n ≡ true
    → magnitude n ≤ length r.content
    → (token : Bytes) × (random_token n r
        ≡ (ok token, record r { content = drop (magnitude n) r.content }))
      × (length token ≡ (magnitude n * 4 + 2) / 3)
      × (Base64.decode Base64.url token ≡ some (take (magnitude n) r.content))
unfolding random_token random_bytes
random_token_lem n r bytes h enough =
    let buf : Bytes = take (magnitude n) r.content in
    (
      Base64.encode Base64.url buf,
      rw (h, draw-enough (magnitude n) r enough) refl,
      omega (arith, Base64.Shape.length-encode Base64.url buf, length-take (magnitude n) r.content),
      Base64.RoundTrip.decode-encode Base64.url Base64.RoundTrip.url-IsAlphabet _
          (All-take IsByte (magnitude n) r.content bytes),
    )

random_hex_lem :
    (n : ℤ) (r : Reader)
    → IsBytes r.content
    → is_positive n ≡ true
    → magnitude n ≤ length r.content
    → (token : Bytes) × (random_hex n r
        ≡ (ok token, record r { content = drop (magnitude n) r.content }))
      × (length token ≡ magnitude n * 2)
      × (Hex.decode token ≡ some (take (magnitude n) r.content))
unfolding random_hex random_bytes
random_hex_lem n r bytes h enough =
    let buf : Bytes = take (magnitude n) r.content in
    (
      Hex.encode buf,
      rw (h, draw-enough (magnitude n) r enough) refl,
      omega (arith, Hex.length-encode buf, length-take (magnitude n) r.content),
      Hex.decode-encode _ (All-take IsByte (magnitude n) r.content bytes),
    )

-- A source that ends too early is used up.
pub draw_short :
    (n : ℕ) (r : Reader)
    → length r.content < n
    → draw n r ≡ (err random_failure, record r { content = [] })
unfolding draw read_full
draw_short n r h = elim (Bool-cases r.faulty) [
  | inl e ↦ rw (lt→leb n (length r.content) h, e) refl
  | inr e ↦ rw (lt→leb n (length r.content) h, e) refl
]

-- With n bytes in the source, `RandomToken(n)` returns ceil(4 n / 3) characters, and `RandomHex(n)`
-- returns 2 n digits, that decode to the next n bytes of the source, which are used up.
pub random_texts :
    (n : ℤ) (r : Reader)
    → IsBytes r.content
    → is_positive n ≡ true
    → magnitude n ≤ length r.content
    → ((token : Bytes) × (random_token n r
          ≡ (ok token, record r { content = drop (magnitude n) r.content }))
        × (length token ≡ (magnitude n * 4 + 2) / 3)
        × (Base64.decode Base64.url token ≡ some (take (magnitude n) r.content)))
      × ((digits : Bytes) × (random_hex n r
            ≡ (ok digits, record r { content = drop (magnitude n) r.content }))
          × (length digits ≡ magnitude n * 2)
          × (Hex.decode digits ≡ some (take (magnitude n) r.content)))
random_texts n r bytes h enough =
    (random_token_lem n r bytes h enough, random_hex_lem n r bytes h enough)
