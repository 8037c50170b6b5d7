-- ===== src/Asymmetric/Sample.antt =====
-- An exchange for concrete runs that meets the laws: bytes are added place by place.
use crypt.Base.{
  ◌+◌, ◌%◌, ◌≡◌, refl, sym, ◌∙◌, [], ◌∷◌, ap, ◌==◌, ==→eq, length, Option, some, none,
  if◌then◌else◌, arith, replicate, Bool-cases, inl, inr,
}
use crypt.Wire.{Bytes, IsBytes}
use crypt.Asymmetric.{Curve}
use mathlib.Core.Path.{subst}

add_bytes : Bytes → Bytes → Bytes
add_bytes [] ps = []
add_bytes (k ∷ ks) [] = []
add_bytes (k ∷ ks) (p ∷ ps) = (k + p) % 256 ∷ add_bytes ks ps

add_bytes_swap : (a b g : Bytes) → add_bytes a (add_bytes b g) ≡ add_bytes b (add_bytes a g)
unfolding add_bytes
add_bytes_swap [] [] g = refl
add_bytes_swap [] (b ∷ bs) g = refl
add_bytes_swap (a ∷ as_) [] g = refl
add_bytes_swap (a ∷ as_) (b ∷ bs) [] = refl
add_bytes_swap (a ∷ as_) (b ∷ bs) (g ∷ gs) = ground (arith, add_bytes_swap as_ bs gs)

add_bytes-IsBytes : (k p : Bytes) → IsBytes (add_bytes k p)
unfolding add_bytes
add_bytes-IsBytes [] p = tt
add_bytes-IsBytes (k ∷ ks) [] = tt
add_bytes-IsBytes (k ∷ ks) (p ∷ ps) = (omega arith, add_bytes-IsBytes ks ps)

-- The secret, where it has 32 bytes.
pub exchange : Bytes → Bytes → Option Bytes
exchange k p = if length (add_bytes k p) == 32 then some (add_bytes k p) else none

exchange_value :
    (k p q : Bytes) → exchange k p ≡ some q → (q ≡ add_bytes k p) × (length (add_bytes k p) ≡ 32)
unfolding exchange
exchange_value k p q h = elim (Bool-cases (length (add_bytes k p) == 32)) [
  | inl e ↦
      let same : some (add_bytes k p) ≡ some q = rw e at h in
      (cc same, ==→eq (length (add_bytes k p)) 32 e)
  | inr e ↦ cc (rw e at h)
]

abbrev pub base : Bytes
base = replicate 32 9

pub exchange-agreement :
    (a b pub_a pub_b : Bytes)
    → exchange a base ≡ some pub_a
    → exchange b base ≡ some pub_b
    → exchange a pub_b ≡ exchange b pub_a
unfolding exchange
exchange-agreement a b pub_a pub_b ha hb =
    rw
      (
        (exchange_value a base pub_a ha).0,
        (exchange_value b base pub_b hb).0,
        add_bytes_swap a b base,
      )
      refl

pub length-exchange : (k p q : Bytes) → exchange k p ≡ some q → length q ≡ 32
length-exchange k p q h =
    let (value, long) = exchange_value k p q h in ap (λ (t : Bytes). length t) value ∙ long

pub exchange-IsBytes : (k p q : Bytes) → exchange k p ≡ some q → IsBytes q
exchange-IsBytes k p q h = subst IsBytes (sym (exchange_value k p q h).0) (add_bytes-IsBytes k p)

unfoldable pub sample_curve : Curve
unfolding exchange add_bytes
sample_curve = record {
  x25519 = exchange;
  basepoint = base;
  length-x25519 = length-exchange;
  x25519-IsBytes = exchange-IsBytes;
  agreement = exchange-agreement;
}

length-add_bytes : (k p : Bytes) → length k ≡ length p → length (add_bytes k p) ≡ length k
unfolding add_bytes
length-add_bytes [] p h = refl
length-add_bytes (k ∷ ks) [] h = absurd (omega arith)
length-add_bytes (k ∷ ks) (p ∷ ps) h = omega (arith, length-add_bytes ks ps (omega arith))

-- Two strings of 32 bytes have a secret.
pub exchange_total :
    (k p : Bytes) → length k ≡ 32 → length p ≡ 32 → (q : Bytes) × (exchange k p ≡ some q)
unfolding exchange
exchange_total k p hk hp = (add_bytes k p, rw (length-add_bytes k p (hk ∙ sym hp), hk) refl)
