-- ===== src/Examples/Migration/Tests.antt =====
-- The theorems on the migration at a table with a token of `Seal` and a text of no format, and on
-- the program.
use crypt.Base.{
  List, ◌++◌, replicate, false, ◌+◌, All, ◌≡◌, ◌≤◌, ◌<◌, ◌⊎◌, refl, [], ◌∷◌, some, true, same,
  arith,
}
use crypt.Base.Outcome.{ok}
use crypt.Wire.{Bytes, IsBytes}
use crypt.Assoc.{Map, lookup, insert}
use crypt.Entropy.{Reader}
use crypt.Cipher.Sample.{sample}
use crypt.Cbc.Sample.{sample_mode}
use crypt.Format.{version_aead_v1}
use crypt.Format.Sealed.{token_of, token_of-IsTokenOf}
use crypt.Gcm.Seal.{seal}
use crypt.Gcm.Open.{open_token}
use crypt.Gcm.Accepts.{open_token_iff}
use crypt.Auto.{open_auto}
use crypt.Auto.Detect.{open_auto-open_token}
use crypt.Examples.Migration.{Tally, migrate}
use crypt.Examples.Migration.Loop.{visits, migrate-keeps}
use crypt.Examples.Migration.Complete.{IsReadable, migrate-completes}
use crypt.Wire.Text.{codes}
use crypt.Wire.Decimal.{format_uint, put_digits}
use crypt.Examples.Program.{size}
use crypt.Examples.Migration.Script.{script_key, old_plaintexts, setup, rows_shown, migration_main}
use crypt.Examples.Migration.Table.{IsRow, plains_from, plains_shown, all_plains}
use crypt.Examples.Migration.Run.{unmigrated, migration_main-prints}
use crypt.Samples.{key_32, nonce_12, hello, context, source}

abbrev old_token : Bytes
old_token = token_of sample version_aead_v1 key_32 nonce_12 hello []

abbrev table : Tally
table = record {
  rows = (context, context) ∷ (hello, old_token) ∷ [];
  migrated = 0;
  skipped = 0;
  errored = 0;
}

table-hello : lookup hello table.rows ≡ some old_token
unfolding lookup same
table-hello = refl

hello-visited : visits hello (context ∷ hello ∷ []) ≡ true
unfolding visits same
hello-visited = refl

old_token-opens : open_auto sample sample_mode key_32 old_token [] ≡ ok hello
old_token-opens = open_auto-open_token sample sample_mode key_32 [] old_token hello (
    (open_token_iff sample key_32 [] old_token hello).1 (
      refl,
      token_of-IsTokenOf sample version_aead_v1 key_32 nonce_12 hello [] (omega arith) refl
          (omega arith) (omega arith),
    ))

migrate-keeps_example :
    (s' : Tally) × (r' : Reader) × (migrate sample sample_mode key_32
        (context ∷ hello ∷ [])
        table
        source
      ≡ (ok s', r'))
    × IsBytes r'.content
    × (0 ≤ s'.errored)
    × (t : Bytes) × (lookup hello s'.rows ≡ some t)
    × (open_auto sample sample_mode key_32 t [] ≡ ok hello)
    × ((0 < s'.errored) ⊎ (open_token sample key_32 t [] ≡ ok hello))
migrate-keeps_example =
    migrate-keeps sample sample_mode key_32 hello refl hello old_token (context ∷ hello ∷ []) table
      source (omega arith) (omega arith) hello-visited table-hello old_token-opens

-- Only the row of the token, so that every row is readable.
table-IsReadable : All (IsReadable sample sample_mode key_32 table) (hello ∷ [])
table-IsReadable = ((old_token, hello, omega arith, table-hello, old_token-opens), tt)

hello_alone : visits hello (hello ∷ []) ≡ true
unfolding visits same
hello_alone = refl

migrate-completes_example :
    (s' : Tally) × (r' : Reader) × (migrate sample sample_mode key_32 (hello ∷ []) table source
      ≡ (ok s', r'))
    × (s'.errored ≡ 0)
    × (s'.migrated + s'.skipped ≡ 0 + 0 + 1)
    × (t : Bytes) × (lookup hello s'.rows ≡ some t)
    × (open_token sample key_32 t [] ≡ ok hello)
migrate-completes_example =
    migrate-completes sample sample_mode key_32 refl (hello ∷ []) table source hello hello old_token
      (omega arith) (omega arith) table-IsReadable hello_alone (omega arith) table-hello
      old_token-opens

abbrev nines : Reader
nines = record { content = replicate 108 9; faulty = false }

abbrev four_ids : List Bytes
four_ids = codes "row_0" ∷ codes "row_1" ∷ codes "row_2" ∷ codes "row_3" ∷ []

four_ids-IsRow : All (IsRow all_plains) four_ids
unfolding plains_from lookup insert same format_uint put_digits
four_ids-IsRow = (
  (codes "sk_live_aaaa1111", refl),
  (
    (codes "sk_live_bbbb2222", refl),
    ((codes "sk_live_cccc3333", refl), ((codes "sk_live_dddd4444", refl), tt)),
  ),
)

four_ids-visited : All (λ id. visits id four_ids ≡ true) four_ids
unfolding visits same
four_ids-visited = (refl, (refl, (refl, (refl, tt))))

migration_main-prints_example :
    (written : Map) × (fresh : Bytes) × (s' : Tally) × (r1 r2 r' : Reader) × (setup sample_mode
        script_key 0 old_plaintexts [] nines
      ≡ (ok written, r1))
    × (seal sample script_key (codes "sk_live_dddd4444") [] r1 ≡ (ok fresh, r2))
    × (migrate sample sample_mode script_key four_ids
          (unmigrated (insert (codes "row_3") fresh written))
          r2
        ≡ (ok s', r'))
    × (s'.migrated + s'.skipped ≡ 4)
    × (migration_main sample sample_mode four_ids four_ids [] four_ids
          (record { random = nines; printed = [] })
        ≡ (
          ok tt,
          record {
            random = r';
            printed =
                ((rows_shown four_ids (insert (codes "row_3") fresh written)
                    ++ (size s'.migrated ∷ size s'.skipped ∷ size 0 ∷ []))
                  ++ rows_shown [] s'.rows)
                ++ plains_shown four_ids all_plains;
          },
        ))
migration_main-prints_example =
    migration_main-prints sample sample_mode four_ids four_ids [] four_ids nines (omega arith)
      (omega arith) four_ids-IsRow four_ids-visited
