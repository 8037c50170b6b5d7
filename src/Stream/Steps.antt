-- ===== src/Stream/Steps.antt =====
-- How a read and a write of stream.go end, on any input and output.
use crypt.Base.{
  ℕ, ◌≤◌, ◌≡◌, ◌≢◌, ◌⊎◌, refl, inl, inr, [], Bool-cases, Option, none, some, ltb, leb, ltb→lt,
  ltb→le, lt→leb, le→leb, length, take, drop, length-take, arith,
}
use crypt.Base.Outcome.{Result, ok, err, panic}
use crypt.Wire.{Bytes}
use crypt.Entropy.{Reader, full, short, fault, read_full}
use crypt.Stream.{Ends, Writer, Streaming, and_then, accept, write, ◌>>◌}

-- How a read ends.
pub read_full-cases :
    (n : ℕ) (r : Reader)
    → ((b : Bytes) × (length b ≡ n)
        × (n ≤ length r.content)
        × (read_full n r ≡ (full b, record r { content = drop n r.content })))
      ⊎ ((b : Bytes) × (read_full n r ≡ (short b, record r { content = [] })))
      ⊎ (read_full n r ≡ (fault, record r { content = [] }))
unfolding read_full
read_full-cases n r = elim (Bool-cases (ltb (length r.content) n)) [
  | inr enough ↦
      let long = ltb→le (length r.content) n enough in
      inl (
        take n r.content,
        omega (arith, length-take n r.content),
        long,
        rw (le→leb n (length r.content) long) refl,
      )
  | inl few ↦
      let less = lt→leb n (length r.content) (ltb→lt (length r.content) n few) in
      elim (Bool-cases r.faulty) [
        | inl bad ↦ inr (inr (rw (less, bad) refl))
        | inr good ↦ inr (inl (r.content, rw (less, good) refl))
      ]
]

accept-ne-panic : (bytes : Bytes) (w : Writer) (room : Option ℕ) → (accept bytes w room).0 ≢ panic
accept-ne-panic bytes w none = cc
accept-ne-panic bytes w (some room) = elim (Bool-cases (leb (length bytes) room)) [
  | inl fits ↦ rw fits cc
  | inr full_up ↦ rw full_up cc
]

-- What follows a write, which leaves the input alone.
pub write_step {κ} :
    {B : Type κ} (bytes : Bytes) (s : Ends) (rest : Streaming B)
    → ((s' : Ends) → length s'.input.content ≡ length s.input.content → (rest s').0 ≢ panic)
    → ((write bytes >> rest) s).0 ≢ panic
write_step bytes s rest h =
    written (accept bytes s.output s.output.room) (accept-ne-panic bytes s.output s.output.room)
  where
    written :
        (call : Result (Unit {0}) × Writer)
        → call.0 ≢ panic
        → (and_then (λ _. rest) (call.0, record s { output = call.1 })).0 ≢ panic
    written (ok a, w) _ = h (record s { output = w }) refl
    written (err e, w) _ = cc
    written (panic, w) bad = absurd (bad refl)
