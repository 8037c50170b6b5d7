-- ===== src/Sign.antt =====
-- sign.go: HMAC-SHA256 tags. The tag function of crypto/hmac is a parameter.
pub mod Sample
mod Tests
use crypt.Base.{
  ℕ, ◌≡◌, ◌↔◌, sym, ap, ◌∙◌, refl, Bool, true, false, Bool-cases, inl, inr, length, ◌==◌, eq→==,
  same, same_self, same→eq, if◌then◌else◌,
}
use crypt.Wire.{Bytes, IsBytes}
use mathlib.Core.Path.{subst}

-- HMAC-SHA256 of a key and a text: 32 bytes.
pub record Hmac : Type 0 where
  pub tag : Bytes → Bytes → Bytes
  pub length-tag : (key text : Bytes) → length (tag key text) ≡ 32
  pub tag-IsBytes : (key text : Bytes) → IsBytes (tag key text)

-- `Sign`
unfoldable pub sign : Hmac → Bytes → Bytes → Bytes
sign h key text = h.tag key text

-- `Verify`; `hmac.Equal` compares lengths and bytes.
unfoldable pub verify : Hmac → Bytes → Bytes → Bytes → Bool
verify h key text mac = if length mac == 32 then same (sign h key text) mac else false

-- `ConstantTimeEqual`
unfoldable pub constant_time_equal : Bytes → Bytes → Bool
constant_time_equal a b = same a b

-- `Verify` accepts a tag exactly if it is what `Sign` returns.
pub verify_iff :
    (h : Hmac) (key text mac : Bytes) → (verify h key text mac ≡ true) ↔ (mac ≡ sign h key text)
unfolding verify sign
verify_iff h key text mac = (accepted, λ e. subst (λ t. verify h key text t ≡ true) (sym e) own)
  where
    accepted : verify h key text mac ≡ true → mac ≡ sign h key text
    accepted e = elim (Bool-cases (length mac == 32)) [
      | inl long ↦ sym (same→eq (sign h key text) mac (rw long at e))
      | inr other ↦ cc (rw other at e)
    ]

    own : verify h key text (sign h key text) ≡ true
    own =
        rw (eq→== (length (h.tag key text)) 32 (h.length-tag key text), same_self (h.tag key text))
          refl
