-- ===== src/Hkdf.antt =====
-- hkdf.go: `DeriveKey`. The reader that golang.org/x/crypto/hkdf makes is a parameter.
pub mod Sample
mod Tests
use crypt.Base.{
  ℕ, ◌*◌, ◌≡◌, ◌↔◌, ◌≤◌, ◌<◌, sym, ap, ◌∙◌, refl, Bool, true, false, not, Bool-cases, inl, inr,
  length, take, leb, le→leb, ◌==◌, ne→==, ==-false, lt→leb, arith,
}
use crypt.Base.Int.{ℤ, is_positive, magnitude}
use crypt.Base.Outcome.{
  Result, ok, err, guard, ◌>>=◌, ◌>>◌, bad_length, empty_master_key, random_failure,
}
use crypt.Wire.{Bytes}
use crypt.Entropy.{Reader, Filled, full, short, fault, read_full}

-- HKDF with SHA-256 of a master key, a salt and an info: it delivers 255 blocks of 32 bytes, and
-- then fails.
pub record Hkdf : Type 0 where
  pub output : Bytes → Bytes → Bytes → Bytes
  pub length-output : (master salt info : Bytes) → length (output master salt info) ≡ 255 * 32

abbrev pub filled : Filled → Result Bytes
filled (full out) = ok out
filled (short _) = err random_failure
filled fault = err random_failure

-- `DeriveKey`
unfoldable pub derive_key : Hkdf → Bytes → Bytes → Bytes → ℤ → Result Bytes
derive_key h master salt info n = do
  guard (is_positive n) bad_length
  guard (not (length master == 0)) empty_master_key
  filled (read_full (magnitude n) (record { content = h.output master salt info; faulty = true })).0

-- `DeriveKey` returns a key exactly if the master key is not empty and the length is from 1 to
-- 8160, and the key is then the first bytes that HKDF delivers.
pub derive_key_iff :
    (h : Hkdf) (master salt info out : Bytes) (n : ℤ)
    → (derive_key h master salt info n ≡ ok out) ↔ (
        (is_positive n ≡ true)
        × (1 ≤ length master)
        × (magnitude n ≤ 8160)
        × (out ≡ take (magnitude n) (h.output master salt info)))
unfolding derive_key read_full
derive_key_iff h master salt info out n = (derived, derives)
  where
    long : length (h.output master salt info) ≡ 8160
    long = h.length-output master salt info

    derived :
        derive_key h master salt info n ≡ ok out
        → (is_positive n ≡ true)
          × (1 ≤ length master)
          × (magnitude n ≤ 8160)
          × (out ≡ take (magnitude n) (h.output master salt info))
    derived e = elim (Bool-cases (is_positive n)) [
      | inr bad ↦ cc (rw bad at e)
      | inl good ↦ elim (Bool-cases (length master == 0)) [
        | inl empty ↦ cc (rw (good, empty) at e)
        | inr some_key ↦
            elim (Bool-cases (leb (magnitude n) (length (h.output master salt info)))) [
              | inr far ↦ cc (rw (good, some_key, far) at e)
              | inl near ↦
                  let same : ok (take (magnitude n) (h.output master salt info)) ≡ ok out =
                    rw (good, some_key, near) at e in
                  let nonzero = ==-false (length master) 0 some_key in
                  (good, omega arith, ground (arith, long, near), cc same)
            ]
      ]
    ]

    derives :
        (is_positive n ≡ true)
          × (1 ≤ length master)
          × (magnitude n ≤ 8160)
          × (out ≡ take (magnitude n) (h.output master salt info))
        → derive_key h master salt info n ≡ ok out
    derives (good, some_key, near, same) =
        rw
          (
            good,
            ne→== (length master) 0 (λ (e : length master ≡ 0). omega arith),
            le→leb (magnitude n) (length (h.output master salt info)) (omega (arith, long)),
          )
          (ap ok (sym same))
