-- ===== src/Base/Outcome.antt =====
-- The errors of errors.go and of the other files, Go's (value, error) pair, and slice expressions.
use Prim.Native.Nat.{ℕ, ◌+◌, ◌-◌, ◌≤◌, ◌<◌}
use mathlib.Core.Path.{◌≡◌, refl}
use mathlib.Core.Logic.{◌⊎◌, inl, inr, ◌≢◌}
use mathlib.Core.Bool.{Bool, ◌&&◌}
use mathlib.Core.Option.{Option, none, some}
use mathlib.Core.List.{List, [], ◌∷◌, ◌++◌}
use native.Mathlib.Omega.{arith}
use crypt.Base.Tests.{leb, le→leb, lt→leb, if◌then◌else◌}
use crypt.Base.Lists.{length, take, drop, take-append, drop-append, length-append}

-- What went wrong, as `errors.Is` tells it; the texts of the messages are left out.
pub data Error : Type 0 where
  -- the sentinel errors of errors.go
  invalid_key ciphertext_too_short ciphertext_not_block_aligned invalid_padding : Error
  unsupported_version tampered invalid_ciphertext unknown_format invalid_password_hash : Error
  -- the sentinel errors that other files declare
  expired truncated invalid_signature : Error
  -- errors that are no sentinel: one constructor for each kind of message
  random_failure bad_nonce_length cipher_setup bad_ttl bad_length empty_master_key : Error
  empty_kid kid_too_long duplicate_kid unknown_kid active_kid unknown_key_id : Error
  bad_chunk_size read_failure write_failure kms_failure bad_agreement keygen_failure : Error
  bad_cost input_too_long bad_inner : Error
  -- errors of the programs under examples/
  malformed_header malformed_timestamp outside_tolerance malformed_mac signature_mismatch : Error
  invalid_session session_expired session_in_future no_session foreign_session : Error
  email_registered invalid_credentials unknown_hash_format no_keys_configured file_failure : Error
  -- cmd/gen-vectors prints a message and calls `os.Exit(1)`
  exited : Error

-- `panic` is no value of Go's: a run-time panic (a slice out of range, a call of a nil interface).
pub data Result {ℓ} (A : Type ℓ) : Type ℓ where
  panic : Result A
  err : Error → Result A
  ok : A → Result A

-- `if err != nil { return nil, e }` behind a call that yields a value or fails.
abbrev pub or_fail {ℓ} : {A : Type ℓ} → Option A → Error → Result A
or_fail none e = err e
or_fail (some a) e = ok a

-- `if !test { return nil, e }`
abbrev pub guard : Bool → Error → Result (Unit {0})
guard passed e = if passed then ok tt else err e

-- `if err != nil { return nil, other }` behind a call.
abbrev pub instead {ℓ} : {A : Type ℓ} → Error → Result A → Result A
instead e (ok a) = ok a
instead e (err _) = err e
instead e panic = panic

module _ {ℓ κ} {A : Type ℓ} {B : Type κ} where
  infixl 5 ◌>>=◌
  -- The statements behind a call whose error the caller passes on.
  abbrev pub ◌>>=◌ : Result A → (A → Result B) → Result B
  panic >>= rest = panic
  err e >>= rest = err e
  ok a >>= rest = rest a

  -- A body that returns a value went through the call, and through what follows it.
  pub bind-returns :
      {b : B} (call : Result A) (rest : A → Result B)
      → (call >>= rest) ≡ ok b
      → (a : A) × (call ≡ ok a) × (rest a ≡ ok b)
  bind-returns panic rest h = cc
  bind-returns (err e) rest h = cc
  bind-returns (ok a) rest h = (a, refl, h)

infixl 5 ◌>>◌
abbrev pub ◌>>◌ {κ} : {B : Type κ} → Result (Unit {0}) → Result B → Result B
test >> rest = test >>= λ _. rest

pub ok-ne-panic {ℓ} : {A : Type ℓ} (a : A) → ok a ≢ panic
ok-ne-panic a = cc

-- The three ways in which a call can end.
pub Result-cases {ℓ} :
    {A : Type ℓ} (call : Result A)
    → ((a : A) × (call ≡ ok a)) ⊎ ((e : Error) × (call ≡ err e)) ⊎ (call ≡ panic)
Result-cases panic = inr (inr refl)
Result-cases (err e) = inr (inl (e, refl))
Result-cases (ok a) = inl (a, refl)

-- `s[lo:hi]`. The bound is the length, which is at most the capacity that Go tests.
unfoldable pub slice : ℕ → ℕ → List ℕ → Result (List ℕ)
slice lo hi s = if leb lo hi && leb hi (length s) then ok (take (hi - lo) (drop lo s)) else panic

-- `s[lo:]`
unfoldable pub slice_from : ℕ → List ℕ → Result (List ℕ)
slice_from lo s = if leb lo (length s) then ok (drop lo s) else panic

-- `s[0]`
unfoldable pub first : List ℕ → Result ℕ
first [] = panic
first (x ∷ xs) = ok x

pub slice-in_range :
    (lo hi : ℕ) (s : List ℕ)
    → lo ≤ hi
    → hi ≤ length s
    → slice lo hi s ≡ ok (take (hi - lo) (drop lo s))
unfolding slice
slice-in_range lo hi s p q = rw (le→leb lo hi p, le→leb hi (length s) q)

-- `s[:hi]`
pub slice_front : (hi : ℕ) (s : List ℕ) → hi ≤ length s → slice 0 hi s ≡ ok (take hi s)
slice_front hi s p =
    let all : hi - 0 ≡ hi = omega arith in rw (slice-in_range 0 hi s (omega arith) p, all) refl

pub slice_from-in_range : (lo : ℕ) (s : List ℕ) → lo ≤ length s → slice_from lo s ≡ ok (drop lo s)
unfolding slice_from
slice_from-in_range lo s p = rw (le→leb lo (length s) p)

-- The slice between two others.
pub slice-append :
    (lo hi : ℕ) (xs ys zs : List ℕ)
    → length xs ≡ lo
    → lo + length ys ≡ hi
    → slice lo hi (xs ++ (ys ++ zs)) ≡ ok ys
slice-append lo hi xs ys zs p q = rw (
  slice-in_range lo hi (xs ++ (ys ++ zs)) (omega arith)
      (omega (arith, length-append xs (ys ++ zs), length-append ys zs)),
  drop-append lo xs (ys ++ zs) p,
  take-append (hi - lo) ys zs (omega arith),
)

pub slice_from-append :
    (lo : ℕ) (xs ys : List ℕ) → length xs ≡ lo → slice_from lo (xs ++ ys) ≡ ok ys
slice_from-append lo xs ys p =
    rw (
      slice_from-in_range lo (xs ++ ys) (omega (arith, length-append xs ys)),
      drop-append lo xs ys p,
    )

-- A lower bound above the upper one panics.
pub slice_backwards : (lo hi : ℕ) (s : List ℕ) → hi < lo → slice lo hi s ≡ panic
unfolding slice
slice_backwards lo hi s p = rw (lt→leb lo hi p) refl
