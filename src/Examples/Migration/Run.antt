-- ===== src/Examples/Migration/Run.antt =====
-- What the program of examples/migrate_cbc_to_gcm prints.
use crypt.Base.{
  ◌+◌, ◌*◌, ◌≤◌, ◌≡◌, refl, List, [], ◌∷◌, ◌++◌, true, length, drop, All, All-drop, length-drop,
  arith,
}
use crypt.Base.Outcome.{ok}
use crypt.Wire.{Bytes, IsByte, IsBytes}
use crypt.Wire.Text.{codes}
use crypt.Assoc.{Map, insert}
use crypt.Entropy.{Reader}
use crypt.Cipher.{Aead}
use crypt.Cbc.{Mode}
use crypt.Gcm.RoundTrip.{open_token-seal}
use crypt.Auto.Detect.{open_auto-open_token}
use crypt.Examples.Program.{Shown, size}
use crypt.Gcm.Seal.{seal}
use crypt.Examples.Migration.{Tally, migrate}
use crypt.Examples.Migration.Loop.{visits}
use crypt.Examples.Migration.Complete.{loop_done}
use crypt.Examples.Migration.Script.{
  script_key, rows_shown, old_plaintexts, setup, migrate_and_check, run_script, migration_main,
}
use crypt.Examples.Migration.Table.{
  IsRow, plains_from, plains_shown, all_plains, Stored, nothing-Stored, insert-Stored, setup-Stored,
  Stored-IsReadable, migrate-Modern, check_rows-Modern,
}

-- A table that no row of has been counted.
abbrev pub unmigrated : Map → Tally
unmigrated rows = record { rows = rows; migrated = 0; skipped = 0; errored = 0 }

module _ (gcm : Aead) (mode : Mode) (key : Bytes) (hk : length key ≡ 32) where
  migrate_and_check-prints :
      (order after last : List Bytes) (rows plains : Map) (r : Reader) (shown : List Shown)
      → IsBytes r.content
      → 12 * length order ≤ length r.content
      → Stored gcm mode key hk rows plains
      → All (IsRow plains) order
      → All (λ id. visits id order ≡ true) last
      → (s' : Tally) × (r' : Reader) × (migrate gcm mode key order (unmigrated rows) r
          ≡ (ok s', r'))
        × (s'.migrated + s'.skipped ≡ length order)
        × (migrate_and_check gcm mode key order after last rows
              (record { random = r; printed = shown })
            ≡ (
              ok tt,
              record {
                random = r';
                printed =
                    ((shown ++ (size s'.migrated ∷ size s'.skipped ∷ size 0 ∷ []))
                      ++ rows_shown after s'.rows)
                    ++ plains_shown last plains;
              },
            ))
  unfolding migrate_and_check
  migrate_and_check-prints order after last rows plains r shown hr enough stored known seen =
      let s : Tally = unmigrated rows in
      let (s', r', ends, (no_error, counted)) =
        loop_done gcm mode key hk order s r hr enough
          (Stored-IsReadable gcm mode key hk order plains s stored known) in
      let modern =
        migrate-Modern gcm mode key hk order last plains s s' r r' hr enough stored known seen
          ends in
      (
        s',
        r',
        ends,
        omega arith,
        rw (migrate_and_check, ends, no_error)
            (check_rows-Modern gcm mode key hk last s'.rows plains _ modern),
      )

  run_script-prints :
      (plaintexts : List Bytes) (id newest : Bytes) (before order after last : List Bytes)
      (r : Reader)
      → All IsBytes plaintexts
      → IsBytes newest
      → IsBytes r.content
      → 16 * length plaintexts + 12 + 12 * length order ≤ length r.content
      → All (IsRow (insert id newest (plains_from 0 plaintexts []))) order
      → All (λ id. visits id order ≡ true) last
      → (written : Map) × (fresh : Bytes) × (s' : Tally) × (r1 r2 r' : Reader) × (setup mode key 0
            plaintexts [] r
          ≡ (ok written, r1))
        × (seal gcm key newest [] r1 ≡ (ok fresh, r2))
        × (migrate gcm mode key order (unmigrated (insert id fresh written)) r2 ≡ (ok s', r'))
        × (s'.migrated + s'.skipped ≡ length order)
        × (run_script gcm mode key plaintexts id newest before order after last
              (record { random = r; printed = [] })
            ≡ (
              ok tt,
              record {
                random = r';
                printed =
                    ((rows_shown before (insert id fresh written)
                        ++ (size s'.migrated ∷ size s'.skipped ∷ size 0 ∷ []))
                      ++ rows_shown after s'.rows)
                    ++ plains_shown last (insert id newest (plains_from 0 plaintexts []));
              },
            ))
  unfolding run_script
  run_script-prints plaintexts id newest before order after last r hps hn hr enough known seen =
      let (rows, r1, made, hr1, left, stored) =
        setup-Stored gcm mode key hk 0 plaintexts [] [] r hps hr (omega arith)
          (nothing-Stored gcm mode key hk) in
      let (ct, sealed, _, opens) = open_token-seal gcm key newest [] r1 hk hn hr1 (omega arith) in
      let table : Map = insert id ct rows in
      let plains : Map = insert id newest (plains_from 0 plaintexts []) in
      let r2 : Reader = record r1 { content = drop 12 r1.content } in
      let (s', r', migrates, all, prints) =
        migrate_and_check-prints order after last table plains r2 (rows_shown before table)
          (All-drop IsByte 12 r1.content hr1) (omega (arith, length-drop 12 r1.content))
          (insert-Stored gcm mode key hk rows (plains_from 0 plaintexts []) id newest ct stored hn
            (open_auto-open_token gcm mode key [] ct newest opens))
          known seen in
      (rows, ct, s', r1, r2, r', made, sealed, migrates, all, rw (run_script, made, sealed) prints)

-- If the loops range over rows of the table, the check only over rows that the migration came to,
-- and there are 60 bytes in the random source and 12 more for each row, the program ends without an
-- error. The table has the rows that the first loop writes and the token that `Seal` makes, as
-- "row_3", from the random bytes that are left; the migration loop ends on it, and every row that
-- it comes to is migrated or skipped. The program prints the rows of the table, the two counts and
-- no error, the rows that the migration leaves, and at last for each row that is checked the
-- plaintext it was made from.
pub migration_main-prints :
    (gcm : Aead) (mode : Mode) (before order after last : List Bytes) (r : Reader)
    → IsBytes r.content
    → 60 + 12 * length order ≤ length r.content
    → All (IsRow all_plains) order
    → All (λ id. visits id order ≡ true) last
    → (written : Map) × (fresh : Bytes) × (s' : Tally) × (r1 r2 r' : Reader) × (setup mode
          script_key 0 old_plaintexts [] r
        ≡ (ok written, r1))
      × (seal gcm script_key (codes "sk_live_dddd4444") [] r1 ≡ (ok fresh, r2))
      × (migrate gcm mode script_key order (unmigrated (insert (codes "row_3") fresh written)) r2
          ≡ (ok s', r'))
      × (s'.migrated + s'.skipped ≡ length order)
      × (migration_main gcm mode before order after last (record { random = r; printed = [] }) ≡ (
        ok tt,
        record {
          random = r';
          printed =
              ((rows_shown before (insert (codes "row_3") fresh written)
                  ++ (size s'.migrated ∷ size s'.skipped ∷ size 0 ∷ []))
                ++ rows_shown after s'.rows)
              ++ plains_shown last all_plains;
        },
      ))
unfolding migration_main
migration_main-prints gcm mode before order after last r hr enough known seen =
    run_script-prints gcm mode script_key refl old_plaintexts (codes "row_3")
      (codes "sk_live_dddd4444") before order after last r (omega arith) (omega arith) hr
      (omega arith) known seen
