-- ===== src/Wire/Base64/Spelling.antt =====
-- Texts that differ and decode to the same bytes.
use crypt.Base.{
  ℕ, ◌/◌, ◌%◌, ◌≡◌, refl, ◌⊎◌, inl, inr, arith, List, [], ◌∷◌, ◌++◌, none, some, Option-cases, true,
  length,
}
use crypt.Wire.Base64.{
  url, value_of, is_line_end, push_group, values, from_groups, groups_to_bytes, decode,
}

-- The values `a` and `b` behind `n` others agree in the bits that the decoder uses.
abbrev pub AgreeBehind : ℕ → ℕ → ℕ → Type 0
AgreeBehind n a b = ((n % 4 ≡ 1) × (a / 16 ≡ b / 16)) ⊎ ((n % 4 ≡ 2) × (a / 4 ≡ b / 4))

-- `Respelled s t`: `t` is `s` with a line end put in, or with a last character that differs in
-- unused bits only.
pub data Respelled : List ℕ → List ℕ → Type 0 where
  line_end_added : (s t : List ℕ) (c : ℕ) → is_line_end c ≡ true → Respelled (s ++ t) (s ++ (c ∷ t))
  last_changed :
      (s vs : List ℕ) (x y a b : ℕ)
      → values url s ≡ some vs
      → value_of url x ≡ some a
      → value_of url y ≡ some b
      → AgreeBehind (length vs) a b
      → Respelled (s ++ (x ∷ [])) (s ++ (y ∷ []))

line_end_value : (c : ℕ) → is_line_end c ≡ true → value_of url c ≡ none
unfolding is_line_end value_of
line_end_value c h = ground arith

values-line_end :
    (s t : List ℕ) (c : ℕ) → is_line_end c ≡ true → values url (s ++ (c ∷ t)) ≡ values url (s ++ t)
unfolding values
values-line_end [] t c h = rw (values, line_end_value c h, h) refl
values-line_end (d ∷ s) t c h =
    let rest = values-line_end s t c h in
    elim (Option-cases (value_of url d)) [
      | inl other ↦ ground (arith, rest, other)
      | inr (v, there) ↦ ground (arith, rest, there)
    ]

values-last :
    (s vs : List ℕ) (x a : ℕ)
    → values url s ≡ some vs
    → value_of url x ≡ some a
    → values url (s ++ (x ∷ [])) ≡ some (vs ++ (a ∷ []))
unfolding values push_group
values-last [] vs x a h e = ground (arith, e)
values-last (c ∷ s) vs x a h e = elim (Option-cases (values url s)) [
  | inl bad ↦ elim (Option-cases (value_of url c)) [
    | inl other ↦ ground (arith, bad, other)
    | inr (v, there) ↦ cc (rw (values, there, bad) at h)
  ]
  | inr (us, good) ↦
      let rest = values-last s us x a good e in
      elim (Option-cases (value_of url c)) [
        | inl other ↦ ground (arith, rest, other, good)
        | inr (v, there) ↦ ground (arith, rest, there, good)
      ]
]

from_groups-last :
    (vs : List ℕ) (a b : ℕ)
    → AgreeBehind (length vs) a b
    → from_groups (vs ++ (a ∷ [])) ≡ from_groups (vs ++ (b ∷ []))
unfolding from_groups
from_groups-last [] a b h = ground arith
from_groups-last (p ∷ []) a b h = ground arith
from_groups-last (p ∷ q ∷ []) a b h = ground arith
from_groups-last (p ∷ q ∷ r ∷ []) a b h = ground arith
from_groups-last (p ∷ q ∷ r ∷ s ∷ rest) a b h = rw (from_groups-last rest a b (ground arith)) refl

pub decode-Respelled : (s t : List ℕ) → Respelled s t → decode url s ≡ decode url t
unfolding decode groups_to_bytes
decode-Respelled s t (line_end_added s' t' c h) = rw (values-line_end s' t' c h) refl
decode-Respelled s t (last_changed s' vs x y a b read hx hy agree) =
    rw (values-last s' vs x a read hx, values-last s' vs y b read hy)
      (from_groups-last vs a b agree)
