-- ===== src/Examples/Program.antt =====
-- The programs under examples/ as they run from start to end. `log.Fatal` ends a program with the
-- error; of a call of `fmt.Printf` the values are kept and the format is left out.
use crypt.Base.{◌≡◌, ◌≢◌, refl, sym, ap, append-nil, ℕ, List, [], ◌∷◌, ◌++◌, Bool}
use crypt.Base.Outcome.{Error, Result, ok, err, panic}
use crypt.Wire.{Bytes}
use crypt.Entropy.{Reader, Drawing}

-- A value that a program prints.
pub data Shown : Type 0 where
  text : Bytes → Shown
  failure : Error → Shown
  flag : Bool → Shown
  size : ℕ → Shown
  no_error : Shown

pub record World : Type 0 where
  pub random : Reader
  pub printed : List Shown

abbrev pub Program {ℓ} : Type ℓ → Type ℓ
Program A = World → Result A × World

abbrev pub and_then {ℓ κ} :
    {A : Type ℓ} {B : Type κ} → (A → Program B) → Result A × World → Result B × World
and_then f (ok a, w) = f a w
and_then f (err e, w) = (err e, w)
and_then f (panic, w) = (panic, w)

infixl 5 ◌>>=◌ ◌>>◌
abbrev pub ◌>>=◌ {ℓ κ} : {A : Type ℓ} {B : Type κ} → Program A → (A → Program B) → Program B
◌>>=◌ m f w = and_then f (m w)

abbrev pub ◌>>◌ {ℓ} : {B : Type ℓ} → Program (Unit {0}) → Program B → Program B
◌>>◌ m k w = and_then (λ _. k) (m w)

-- A call whose error is passed to `log.Fatal`.
abbrev pub lift {ℓ} : {A : Type ℓ} → Result A → Program A
lift m w = (m, w)

-- The same for a call that draws from the random source.
abbrev pub drawn {ℓ} : {A : Type ℓ} → Drawing A → Program A
drawn m w = let (got, random) = m w.random in (got, record w { random = random })

-- `v, _ := f()` for a function that returns the value `zero` with an error.
abbrev pub ignoring {ℓ} : {A : Type ℓ} → A → Result A → Result A
ignoring zero (ok a) = ok a
ignoring zero (err e) = ok zero
ignoring zero panic = panic

abbrev pub drawn_ignoring {ℓ} : {A : Type ℓ} → A → Drawing A → Program A
drawn_ignoring zero m w =
    let (got, random) = m w.random in (ignoring zero got, record w { random = random })

-- A method that changes its receiver, with its error passed to `log.Fatal`.
abbrev pub settled {ℓ} : {A : Type ℓ} → A × Result (Unit {0}) → Program A
settled (a, ok tt) = lift (ok a)
settled (a, err e) = lift (err e)
settled (a, panic) = lift panic

-- `fmt.Printf` and `fmt.Println`
abbrev pub print : List Shown → Program (Unit {0})
print values w = (ok tt, record w { printed = w.printed ++ values })

-- `if _, err := f(); err != nil { fmt.Printf(err) }`
abbrev pub print_failure {ℓ} : {A : Type ℓ} → Result A → Program (Unit {0})
print_failure (ok a) w = (ok tt, w)
print_failure (err e) w = print (failure e ∷ []) w
print_failure panic w = (panic, w)

-- What `print_failure` prints of a call that does not panic.
pub failures {ℓ} : {A : Type ℓ} → Result A → List Shown
failures (err e) = failure e ∷ []
failures m = []

pub print_failure_lem {ℓ} :
    {A : Type ℓ} (m : Result A) (w : World)
    → m ≢ panic
    → print_failure m w ≡ (ok tt, record w { printed = w.printed ++ failures m })
unfolding failures
print_failure_lem (ok a) w calm =
    ap (λ t. (ok tt, record w { printed = t })) (sym (append-nil w.printed))
print_failure_lem (err e) w calm = refl
print_failure_lem panic w calm = absurd (calm refl)
