-- ===== src/Examples/Migration.antt =====
-- examples/migrate_cbc_to_gcm: the loop that seals every row again, and the program around it.
pub mod Rows
pub mod Loop
pub mod Complete
pub mod Script
pub mod Table
pub mod Run
mod Tests
use crypt.Base.{ℕ, ◌+◌, List, [], ◌∷◌, Option, none, some, same, if◌then◌else◌}
use crypt.Base.Outcome.{Result, ok, err, panic}
use crypt.Wire.{Bytes}
use crypt.Assoc.{Map, lookup, insert}
use crypt.Entropy.{Reader, Drawing, ◌>>=◌, lift}
use crypt.Cipher.{Aead}
use crypt.Cbc.{Mode}
use crypt.Gcm.Seal.{seal}
use crypt.Gcm.Open.{open_token}
use crypt.Auto.{open_auto}

-- The rows of `fakeDB` and the counters of the script.
pub record Tally : Type 0 where
  pub rows : Map
  pub migrated : ℕ
  pub skipped : ℕ
  pub errored : ℕ

abbrev pub one_error : Tally → Tally
one_error s = record s { errored = s.errored + 1 }

-- What follows `Seal`: the row is replaced unless the text is the same.
abbrev pub store : Tally → Bytes → Bytes → Result Bytes × Reader → Result Tally × Reader
store s id old (err e, r) = (ok (one_error s), r)
store s id old (panic, r) = (panic, r)
store s id old (ok new, r) =
    if same old new
    then (ok (record s { skipped = s.skipped + 1 }), r)
    else (ok (record s { rows = insert id new s.rows; migrated = s.migrated + 1 }), r)

-- What follows `OpenAuto`.
abbrev pub seal_again : Aead → Bytes → Tally → Bytes → Bytes → Result Bytes → Drawing Tally
seal_again gcm key s id old (err e) r = (ok (one_error s), r)
seal_again gcm key s id old panic r = (panic, r)
seal_again gcm key s id old (ok plain) r = store s id old (seal gcm key plain [] r)

-- The body of the loop for the row that `range` yields.
unfoldable pub migrate_row : Aead → Mode → Bytes → Bytes → Tally → Drawing Tally
migrate_row gcm mode key id s r = elim (lookup id s.rows) [
  | none ↦ (ok s, r)
  | some old ↦ seal_again gcm key s id old (open_auto gcm mode key old []) r
]

-- The loop, for the ids in the order in which `range` yields them.
unfoldable pub migrate : Aead → Mode → Bytes → List Bytes → Tally → Drawing Tally
migrate gcm mode key [] s = lift (ok s)
migrate gcm mode key (id ∷ ids) s = migrate_row gcm mode key id s >>= migrate gcm mode key ids
