-- ===== src/Password/Panics.antt =====
-- When `VerifyPassword` panics.
use crypt.Base.{
  ◌≡◌, ◌≢◌, ◌↔◌, refl, sym, ◌∙◌, List, [], ◌∷◌, true, false, Bool, Bool-cases, Option, none, some,
  inl, inr, ◌==◌, ◌||◌, not, length, same,
}
use crypt.Base.Outcome.{
  Result, ok, panic, Result-cases, guard, or_fail, ◌>>=◌, ◌>>◌, Error, ok-ne-panic,
  invalid_password_hash,
}
use crypt.Wire.Base64
use crypt.Wire.{Bytes}
use mathlib.Core.Path.{subst}
use crypt.Wire.Text.{split}
use crypt.Password.{Argon2}
use crypt.Password.Phc.{Phc, parse_parts, parse_phc, scan_version, scan_params, is_version}
use crypt.Password.{argon_algo}
use crypt.Password.Verify.{verify_password}

-- A test, or a call that fails by an error, in front of what does not panic.
guarded {ℓ} :
    {A : Type ℓ} (passed : Bool) (e : Error) (next : Result A)
    → next ≢ panic
    → (guard passed e >> next) ≢ panic
guarded true e next h = h
guarded false e next h = cc

checked {ℓ κ} :
    {A : Type ℓ} {B : Type κ} (o : Option A) (e : Error) (rest : A → Result B)
    → ((a : A) → rest a ≢ panic)
    → (or_fail o e >>= rest) ≢ panic
checked none e rest h = cc
checked (some a) e rest h = h a

parse_parts-ne-panic : (parts : List Bytes) → parse_parts parts ≢ panic
unfolding parse_parts
parse_parts-ne-panic [] = cc
parse_parts-ne-panic (p0 ∷ []) = cc
parse_parts-ne-panic (p0 ∷ p1 ∷ []) = cc
parse_parts-ne-panic (p0 ∷ p1 ∷ p2 ∷ []) = cc
parse_parts-ne-panic (p0 ∷ p1 ∷ p2 ∷ p3 ∷ []) = cc
parse_parts-ne-panic (p0 ∷ p1 ∷ p2 ∷ p3 ∷ p4 ∷ []) = cc
parse_parts-ne-panic (p0 ∷ p1 ∷ p2 ∷ p3 ∷ p4 ∷ p5 ∷ []) =
    let e = invalid_password_hash in
    guarded (same p0 []) e _ (
      guarded (same p1 argon_algo) e _ (
        checked (scan_version p2) e _ λ version. guarded (is_version version) e _ (
          checked (scan_params p3) e _ λ params. checked (Base64.decode Base64.std p4) e _ λ salt.
            checked (Base64.decode Base64.std p5) e _
              λ hash. guarded (not (length salt == 0 || length hash == 0)) e _ (ok-ne-panic _))))
parse_parts-ne-panic (p0 ∷ p1 ∷ p2 ∷ p3 ∷ p4 ∷ p5 ∷ p6 ∷ more) = cc

pub parse_phc-ne-panic : (s : Bytes) → parse_phc s ≢ panic
unfolding parse_phc
parse_phc-ne-panic s = parse_parts-ne-panic (split b'$' s)

-- `VerifyPassword` panics exactly on a stored hash that `parsePHC` accepts and that asks for no
-- round or for no thread.
pub verify_password_panics_iff :
    (argon2 : Argon2) (plaintext stored : Bytes)
    → (verify_password argon2 plaintext stored ≡ panic) ↔ (
        (phc : Phc) × (parse_phc stored ≡ ok phc)
        × ((phc.params.time_cost == 0 || phc.params.parallel == 0) ≡ true))
unfolding verify_password
verify_password_panics_iff argon2 plaintext stored = elim (Result-cases (parse_phc stored)) [
  | inr (inr e) ↦ absurd (parse_phc-ne-panic stored e)
  | inr (inl (x, e)) ↦ (λ h. cc (rw e at h), λ (phc, parsed, idle). cc)
  | inl (phc, e) ↦ elim (Bool-cases (phc.params.time_cost == 0 || phc.params.parallel == 0)) [
    | inl nothing ↦ (λ h. (phc, e, nothing), λ _. rw (e, nothing) refl)
    | inr enough ↦ (
      λ h. cc (rw (e, enough) at h),
      λ (other, parsed, zero_cost).
          let same_phc : ok phc ≡ ok other = sym e ∙ parsed in
          let equal : other ≡ phc = cc same_phc in
          let nothing =
            subst (λ (p : Phc). (p.params.time_cost == 0 || p.params.parallel == 0) ≡ true) equal
              zero_cost in
          cc,
    )
  ]
]
