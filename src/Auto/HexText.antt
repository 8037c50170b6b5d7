-- ===== src/Auto/HexText.antt =====
-- No hex text is taken for a token: its first two characters decode to a first byte that is not 1.
use crypt.Base.{
  ℕ, ◌+◌, ◌*◌, ◌/◌, ◌%◌, ◌≤◌, ◌<◌, ◌≡◌, refl, sym, ap, ◌∙◌, List, [], ◌∷◌, false, ltb, ◌==◌, arith,
  Bool-cases, inl, inr, Option, some, none, ltb→le, ltb→lt, ne→==,
}
use mathlib.Core.Path.{subst}
use crypt.Wire.{Bytes, IsBytes}
use crypt.Wire.Base64
use crypt.Wire.Hex
use crypt.Auto.{is_likely_aead, looks_like_aead}

three_more :
    (a b c : ℕ) (rest : Option Bytes)
    → (a == 1) ≡ false
    → looks_like_aead (Base64.push_three a b c rest) ≡ false
unfolding Base64.push_three
three_more a b c none h = refl
three_more a b c (some bytes) h = ground (arith, h)

-- The first byte behind two characters of the values `p` and `q`.
first_byte :
    (p q : ℕ) (vs : List ℕ)
    → 26 ≤ p
    → p < 62
    → q < 64
    → looks_like_aead (Base64.from_groups (p ∷ q ∷ vs)) ≡ false
unfolding Base64.from_groups Base64.push_three
first_byte p q [] hp hp' hq = ground arith
first_byte p q (r ∷ []) hp hp' hq = ground arith
first_byte p q (r ∷ s ∷ rest) hp hp' hq =
    three_more ((p * 4 + q / 16) % 256) ((q * 16 + r / 4) % 256) ((r * 64 + s) % 256)
      (Base64.from_groups rest) (ne→== _ _ (omega arith))

hex_value :
    (v : ℕ)
    → v < 16
    → (p : ℕ) × (Base64.value_of Base64.url (Hex.digit_of v) ≡ some p) × (26 ≤ p) × (p < 62)
unfolding Base64.value_of Hex.digit_of
hex_value v h = elim (Bool-cases (ltb v 10)) [
  | inl small ↦ let lt = ltb→lt _ _ small in (v + 52, ground (arith, lt), omega arith, omega arith)
  | inr big ↦ let le = ltb→le _ _ big in (v + 16, ground (arith, le), omega arith, omega arith)
]

pushed :
    (c : ℕ) (s : Bytes) (p : ℕ)
    → Base64.value_of Base64.url c ≡ some p
    → Base64.values Base64.url (c ∷ s) ≡ Base64.push_group p (Base64.values Base64.url s)
unfolding Base64.values
pushed c s p e = rw (e, Base64.values) refl

two_more :
    (p q : ℕ) (vs : Option Bytes)
    → 26 ≤ p
    → p < 62
    → q < 62
    → looks_like_aead (Base64.groups_to_bytes (Base64.push_group p (Base64.push_group q vs)))
      ≡ false
unfolding Base64.groups_to_bytes Base64.push_group
two_more p q none hp hp' hq = refl
two_more p q (some vs) hp hp' hq = first_byte p q vs hp hp' (omega arith)

two_values :
    (c d : ℕ) (s : Bytes) (p q : ℕ)
    → Base64.value_of Base64.url c ≡ some p
    → Base64.value_of Base64.url d ≡ some q
    → 26 ≤ p
    → p < 62
    → q < 62
    → looks_like_aead (Base64.decode Base64.url (c ∷ d ∷ s)) ≡ false
unfolding Base64.decode Base64.groups_to_bytes
two_values c d s p q ep eq hp hp' hq =
    subst (λ vs. looks_like_aead (Base64.groups_to_bytes vs) ≡ false)
      (sym (pushed c (d ∷ s) p ep ∙ ap (Base64.push_group p) (pushed d s q eq)))
      (two_more p q (Base64.values Base64.url s) hp hp' hq)

-- No hex text is taken for a token.
pub is_likely_aead-hex : (raw : Bytes) → IsBytes raw → is_likely_aead (Hex.encode raw) ≡ false
unfolding is_likely_aead Hex.encode Base64.decode Base64.values Base64.groups_to_bytes
    Base64.from_groups
is_likely_aead-hex [] _ = refl
is_likely_aead-hex (b ∷ rest) (hb, _) =
    let (p, ep, hp, hp') = hex_value (b / 16) (omega arith) in
    let (q, eq, _, hq) = hex_value (b % 16) (omega arith) in
    two_values (Hex.digit_of (b / 16)) (Hex.digit_of (b % 16)) (Hex.encode rest) p q ep eq hp hp' hq
