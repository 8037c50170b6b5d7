-- ===== src/Examples/Migration/Script.antt =====
-- examples/migrate_cbc_to_gcm: the program around the loop. The four loops over the map of the rows
-- have the order in which `range` yields the ids as an argument.
use crypt.Base.{ℕ, ◌+◌, List, [], ◌∷◌, ◌++◌, Option, none, some, leb, length, take, if◌then◌else◌}
use crypt.Base.Outcome.{Result, ok, err, panic}
use crypt.Wire.{Bytes}
use crypt.Wire.Text.{codes}
use crypt.Wire.Decimal.{format_uint}
use crypt.Assoc.{Map, lookup, insert}
use crypt.Entropy as Entropy
use crypt.Entropy.{Drawing}
use crypt.Cipher.{Aead}
use crypt.Cbc.{Mode}
use crypt.Cbc.Encrypt.{encrypt_cbc}
use crypt.Gcm.Seal.{seal}
use crypt.Gcm.Open.{open_token}
use crypt.Examples.Program.{
  Program, Shown, text, failure, size, ◌>>=◌, ◌>>◌, lift, drawn, drawn_ignoring, print,
}
use crypt.Examples.Migration.{migrate}

abbrev pub script_key : Bytes
script_key = codes "01234567890123456789012345678901"

abbrev pub row_id : ℕ → Bytes
row_id i = codes "row_" ++ format_uint i

-- The loop that writes the rows, from the row `i` on.
unfoldable pub setup : Mode → Bytes → ℕ → List Bytes → Map → Drawing Map
setup mode key i [] rows = Entropy.lift (ok rows)
setup mode key i (p ∷ plaintexts) rows =
    Entropy.◌>>=◌ (encrypt_cbc mode key p)
      (λ ct. setup mode key (i + 1) plaintexts (insert (row_id i) ct rows))

-- `truncate`
unfoldable pub truncate : Bytes → ℕ → Bytes
truncate s n = if leb (length s) n then s else take n s

abbrev pub row_shown : Bytes → Option Bytes → List Shown
row_shown id none = []
row_shown id (some ct) = text id ∷ text (truncate ct 32) ∷ []

-- The loop that prints the rows.
unfoldable pub rows_shown : List Bytes → Map → List Shown
rows_shown [] rows = []
rows_shown (id ∷ ids) rows = row_shown id (lookup id rows) ++ rows_shown ids rows

-- What the last loop prints for a row.
abbrev pub print_row : Bytes → Result Bytes → Program (Unit {0})
print_row id (ok pt) = print (text id ∷ text pt ∷ [])
print_row id (err e) = print (text id ∷ failure e ∷ [])
print_row id panic = lift panic

abbrev pub check_row : Aead → Bytes → Bytes → Option Bytes → Program (Unit {0})
check_row gcm key id none = lift (ok tt)
check_row gcm key id (some ct) = print_row id (open_token gcm key ct [])

-- The last loop, which opens every row by `Open`.
unfoldable pub check_rows : Aead → Bytes → List Bytes → Map → Program (Unit {0})
check_rows gcm key [] rows = lift (ok tt)
check_rows gcm key (id ∷ ids) rows =
    check_row gcm key id (lookup id rows) >> check_rows gcm key ids rows

abbrev pub old_plaintexts : List Bytes
old_plaintexts = codes "sk_live_aaaa1111" ∷ codes "sk_live_bbbb2222" ∷ codes "sk_live_cccc3333" ∷ []

-- The script: the migration, its result, and the check.
unfoldable pub migrate_and_check :
    Aead → Mode → Bytes → List Bytes → List Bytes → List Bytes → Map → Program (Unit {0})
migrate_and_check gcm mode key order after last rows = do
  s ←
      drawn (
        migrate gcm mode key order (record { rows = rows; migrated = 0; skipped = 0; errored = 0 }))
  print (size s.migrated ∷ size s.skipped ∷ size s.errored ∷ [])
  print (rows_shown after s.rows)
  check_rows gcm key last s.rows

-- `main` for a key, the plaintexts of the old rows, and the id and plaintext of the new row; the
-- messages of the migration loop on an error are left out.
unfoldable pub run_script :
    Aead
    → Mode
    → Bytes
    → List Bytes
    → Bytes
    → Bytes
    → List Bytes
    → List Bytes
    → List Bytes
    → List Bytes
    → Program (Unit {0})
run_script gcm mode key plaintexts id newest before order after last = do
  old_rows ← drawn (setup mode key 0 plaintexts [])
  aead_ct ← drawn_ignoring [] (seal gcm key newest [])
  let rows = insert id aead_ct old_rows
  print (rows_shown before rows)
  migrate_and_check gcm mode key order after last rows

-- `main`
unfoldable pub migration_main :
    Aead → Mode → List Bytes → List Bytes → List Bytes → List Bytes → Program (Unit {0})
migration_main gcm mode =
    run_script gcm mode script_key old_plaintexts (codes "row_3") (codes "sk_live_dddd4444")
