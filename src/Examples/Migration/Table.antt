-- ===== src/Examples/Migration/Table.antt =====
-- The rows of the program of examples/migrate_cbc_to_gcm: how they are stored, and what they are
-- after the migration.
use crypt.Base.{
  ℕ, ◌+◌, ◌*◌, ◌≤◌, ◌≡◌, ◌∙◌, refl, sym, ap, inl, inr, List, [], ◌∷◌, ◌++◌, append_assoc,
  append-nil, Option, some, none, true, Bool-cases, same, same→eq, length, drop, All, All-drop,
  length-drop, arith,
}
use mathlib.Core.Path.{subst}
use crypt.Base.Outcome.{ok}
use crypt.Wire.{Bytes, IsByte, IsBytes}
use crypt.Wire.Text.{codes}
use crypt.Assoc.{Map, lookup, insert, lookup-insert}
use crypt.Entropy.{Reader}
use crypt.Cipher.{Aead}
use crypt.Cbc.{Mode}
use crypt.Gcm.Open.{open_token}
use crypt.Auto.{open_auto}
use crypt.Auto.Detect.{open_auto-encrypt_cbc}
use crypt.Examples.Program.{Shown, World, text}
use crypt.Examples.Migration.{Tally, migrate}
use crypt.Examples.Migration.Loop.{visits}
use crypt.Examples.Migration.Complete.{IsReadable, All-weaken, migrate-completes}
use crypt.Examples.Migration.Script.{row_id, setup, check_rows, old_plaintexts}

-- The plaintexts by their ids, from the row `i` on.
unfoldable pub plains_from : ℕ → List Bytes → Map → Map
plains_from i [] plains = plains
plains_from i (p ∷ plaintexts) plains = plains_from (i + 1) plaintexts (insert (row_id i) p plains)

abbrev pub all_plains : Map
all_plains = insert (codes "row_3") (codes "sk_live_dddd4444") (plains_from 0 old_plaintexts [])

-- The ids with their plaintexts.
abbrev pub plain_shown : Bytes → Option Bytes → List Shown
plain_shown id none = []
plain_shown id (some p) = text id ∷ text p ∷ []

unfoldable pub plains_shown : List Bytes → Map → List Shown
plains_shown [] plains = []
plains_shown (id ∷ ids) plains = plain_shown id (lookup id plains) ++ plains_shown ids plains

-- The map has a plaintext for the id.
abbrev pub IsRow : Map → Bytes → Type 0
IsRow plains id = (p : Bytes) × (lookup id plains ≡ some p)

module _ (gcm : Aead) (mode : Mode) (key : Bytes) (hk : length key ≡ 32) where
  -- Every row that has a plaintext is there and `OpenAuto` opens it to that.
  abbrev pub Stored : Map → Map → Type 0
  Stored rows plains =
      (id p : Bytes)
      → lookup id plains ≡ some p
      → IsBytes p × ((t : Bytes) × (lookup id rows ≡ some t) × (open_auto gcm mode key t [] ≡ ok p))

  pub nothing-Stored : Stored [] []
  unfolding lookup
  nothing-Stored id p found = cc

  pub insert-Stored :
      (rows plains : Map) (id p ct : Bytes)
      → Stored rows plains
      → IsBytes p
      → open_auto gcm mode key ct [] ≡ ok p
      → Stored (insert id ct rows) (insert id p plains)
  insert-Stored rows plains id p ct stored hp opens j q found = elim (Bool-cases (same id j)) [
    | inl one ↦
        let here : some p ≡ some q = rw one at (sym (lookup-insert id j p plains) ∙ found) in
        let equal : p ≡ q = cc here in
        (
          subst IsBytes equal hp,
          (
            ct,
            lookup-insert id j ct rows ∙ rw one refl,
            subst (λ v. open_auto gcm mode key ct [] ≡ ok v) equal opens,
          ),
        )
    | inr other ↦
        let old : lookup j plains ≡ some q =
          rw other at (sym (lookup-insert id j p plains) ∙ found) in
        let (hq, (t, there, opens_j)) = stored j q old in
        (hq, (t, lookup-insert id j ct rows ∙ rw other there, opens_j))
  ]

  pub setup-Stored :
      (i : ℕ) (plaintexts : List Bytes) (rows plains : Map) (r : Reader)
      → All IsBytes plaintexts
      → IsBytes r.content
      → 16 * length plaintexts ≤ length r.content
      → Stored rows plains
      → (rows' : Map) × (r' : Reader) × (setup mode key i plaintexts rows r ≡ (ok rows', r'))
        × IsBytes r'.content
        × (length r'.content + 16 * length plaintexts ≡ length r.content)
        × Stored rows' (plains_from i plaintexts plains)
  unfolding setup plains_from
  setup-Stored i [] rows plains r hps hr enough stored = (rows, r, refl, hr, omega arith, stored)
  setup-Stored i (p ∷ plaintexts) rows plains r (hp, hps) hr enough stored =
      let r1 : Reader = record r { content = drop 16 r.content } in
      let (ct, encrypted, opens) =
        open_auto-encrypt_cbc gcm mode key p [] r (rw hk refl) hp hr (omega arith) in
      let (rows', r', rest, hr', left, stored') =
        setup-Stored (i + 1) plaintexts (insert (row_id i) ct rows) (insert (row_id i) p plains) r1
          hps (All-drop IsByte 16 r.content hr) (omega (arith, length-drop 16 r.content))
          (insert-Stored rows plains (row_id i) p ct stored hp opens) in
      (rows', r', rw (setup, encrypted) rest, hr', omega (arith, length-drop 16 r.content), stored')

  pub Stored-IsReadable :
      (ids : List Bytes) (plains : Map) (s : Tally)
      → Stored s.rows plains
      → All (IsRow plains) ids
      → All (IsReadable gcm mode key s) ids
  Stored-IsReadable ids plains s stored known =
      All-weaken
        (λ id (p, is_p). let (hp, (t, found, opens)) = stored id p is_p in (t, p, hp, found, opens))
        ids known

  -- The row has a text that `Open` opens to its plaintext.
  abbrev pub Modern : Map → Map → Bytes → Type 0
  Modern rows plains id =
      (p t : Bytes) × (lookup id plains ≡ some p)
      × (lookup id rows ≡ some t)
      × (open_token gcm key t [] ≡ ok p)

  pub check_rows-Modern :
      (ids : List Bytes) (rows plains : Map) (w : World)
      → All (Modern rows plains) ids
      → check_rows gcm key ids rows w
        ≡ (ok tt, record w { printed = w.printed ++ plains_shown ids plains })
  unfolding check_rows plains_shown
  check_rows-Modern [] rows plains w all =
      ap (λ t. (ok tt, record w { printed = t })) (sym (append-nil w.printed))
  check_rows-Modern (id ∷ ids) rows plains w ((p, t, known, found, opens), all) =
      let shown : List Shown = text id ∷ text p ∷ [] in
      rw (check_rows, found, opens, known)
        (check_rows-Modern ids rows plains (record w { printed = w.printed ++ shown }) all
          ∙ ap (λ s. (ok tt, record w { printed = s }))
              (append_assoc w.printed shown (plains_shown ids plains)))

  visits-IsRow :
      (plains : Map) (id : Bytes) (ids : List Bytes)
      → All (IsRow plains) ids
      → visits id ids ≡ true
      → IsRow plains id
  unfolding visits
  visits-IsRow plains id [] all seen = cc
  visits-IsRow plains id (j ∷ ids) (known, all) seen = elim (Bool-cases (same j id)) [
    | inl one ↦ subst (IsRow plains) (same→eq j id one) known
    | inr other ↦ visits-IsRow plains id ids all (rw other at seen)
  ]

  pub migrate-Modern :
      (ids last : List Bytes) (plains : Map) (s s' : Tally) (r r' : Reader)
      → IsBytes r.content
      → 12 * length ids ≤ length r.content
      → Stored s.rows plains
      → All (IsRow plains) ids
      → All (λ id. visits id ids ≡ true) last
      → migrate gcm mode key ids s r ≡ (ok s', r')
      → All (Modern s'.rows plains) last
  migrate-Modern ids last plains s s' r r' hr enough stored known seen ends =
      All-weaken
        (λ id here.
          let (p, is_p) = visits-IsRow plains id ids known here in
          let (hp, (old, found, opens)) = stored id p is_p in
          let (s2, r2, ends2, _, _, t, found2, opens2) =
            migrate-completes gcm mode key hk ids s r id p old hr enough
              (Stored-IsReadable ids plains s stored known) here hp found opens in
          let one : s2 ≡ s' = cc in
          (p, t, is_p, subst (λ q. lookup id q.rows ≡ some t) one found2, opens2))
        last seen
