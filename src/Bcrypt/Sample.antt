-- ===== src/Bcrypt/Sample.antt =====
-- A scheme for concrete runs: the password itself behind the prefix.
use crypt.Base.{ℕ, ◌≡◌, refl, sym, ◌++◌, true, same, same_self, if◌then◌else◌}
use crypt.Base.Outcome.{Result, ok}
use crypt.Wire.{Bytes}
use crypt.Wire.Text.{codes, has_prefix, has_prefix-append}
use crypt.Bcrypt.{Bcrypt, Comparison, matched, mismatched}

unfoldable pub sample_generate : Bytes → Bytes → ℕ → Result Bytes
sample_generate random password cost = ok (codes "$2" ++ password)

pub sample_compare : Bytes → Bytes → Comparison
sample_compare hash password = if same hash (codes "$2" ++ password) then matched else mismatched

pub sample_compare-generate :
    (random password hash : Bytes) (cost : ℕ)
    → sample_generate random password cost ≡ ok hash
    → sample_compare hash password ≡ matched
unfolding sample_generate sample_compare
sample_compare-generate random password hash cost h =
    let e : codes "$2" ++ password ≡ hash = cc in
    rw (sym e, same_self (codes "$2" ++ password)) refl

pub sample_generate-prefix :
    (random password hash : Bytes) (cost : ℕ)
    → sample_generate random password cost ≡ ok hash
    → has_prefix hash (codes "$2") ≡ true
unfolding sample_generate
sample_generate-prefix random password hash cost h =
    let e : codes "$2" ++ password ≡ hash = cc in
    rw (sym e, has_prefix-append (codes "$2") password) refl

unfoldable pub sample_bcrypt : Bcrypt
sample_bcrypt = record {
  generate = sample_generate;
  compare_hash = sample_compare;
  compare-generate = sample_compare-generate;
  generate-prefix = sample_generate-prefix;
}
