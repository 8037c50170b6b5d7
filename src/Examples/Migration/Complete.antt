-- ===== src/Examples/Migration/Complete.antt =====
-- With enough randomness the migration finishes its work: no error is counted, and every row that
-- it comes to can be opened by `Open` alone.
use crypt.Base.{
  ℕ, ◌+◌, ◌*◌, ◌≤◌, ◌≡◌, ◌∙◌, refl, ap, inl, inr, List, [], ◌∷◌, some, true, Bool-cases, same,
  same→eq, length, take, drop, All, All-drop, length-drop, arith,
}
use mathlib.Core.Path.{subst}
use crypt.Base.Outcome.{ok}
use crypt.Wire.{Bytes, IsByte, IsBytes}
use crypt.Assoc.{lookup, insert}
use crypt.Entropy.{Reader}
use crypt.Cipher.{Aead}
use crypt.Format.{version_aead_v1}
use crypt.Format.Sealed.{token_of}
use crypt.Cbc.{Mode}
use crypt.Gcm.Open.{open_token}
use crypt.Gcm.Sealed.{seal_lem}
use crypt.Auto.{open_auto}
use crypt.Examples.Migration.{Tally, migrate_row, migrate}
use crypt.Examples.Migration.Rows.{row_own, row_other}
use crypt.Examples.Migration.Loop.{visits, migrate-keeps}

-- The row is there and `OpenAuto` opens it to bytes.
abbrev pub IsReadable : Aead → Mode → Bytes → Tally → Bytes → Type 0
IsReadable gcm mode key s id =
    (t plain : Bytes) × IsBytes plain
    × (lookup id s.rows ≡ some t)
    × (open_auto gcm mode key t [] ≡ ok plain)

pub All-weaken {ℓ κ ι} :
    {A : Type ℓ} {P : A → Type κ} {Q : A → Type ι}
    → ((a : A) → P a → Q a)
    → (xs : List A) → All P xs
    → All Q xs
All-weaken f [] h = tt
All-weaken f (x ∷ xs) (p, h) = (f x p, All-weaken f xs h)

module _ (gcm : Aead) (mode : Mode) (key : Bytes) (hk : length key ≡ 32) where
  -- The turn counts the row as done and uses 12 bytes of the source up.
  abbrev pub Counted : Tally → Tally → ℕ → Type 0
  Counted s s' n =
      (s'.errored ≡ s.errored) × (s'.migrated + s'.skipped ≡ s.migrated + s.skipped + n)

  turn_done :
      (j : Bytes) (s : Tally) (r : Reader)
      → 12 ≤ length r.content
      → IsReadable gcm mode key s j
      → (s' : Tally) × (migrate_row gcm mode key j s r
          ≡ (ok s', record r { content = drop 12 r.content }))
        × Counted s s' 1
  unfolding migrate_row
  turn_done j s r long (old, plain, _, found, opens) =
      let new : Bytes = token_of gcm version_aead_v1 key (take 12 r.content) plain [] in
      let sealed = seal_lem gcm key plain [] r hk long in
      elim (Bool-cases (same old new)) [
        | inl kept ↦ (
          record s { skipped = s.skipped + 1 },
          rw (migrate_row, found, opens, sealed, kept) refl,
          (refl, omega arith),
        )
        | inr changed ↦ (
          record s { rows = insert j new s.rows; migrated = s.migrated + 1 },
          rw (migrate_row, found, opens, sealed, changed) refl,
          (refl, omega arith),
        )
      ]

  -- A turn leaves a readable row readable.
  turn-IsReadable :
      (j id : Bytes) (s s' : Tally) (r r' : Reader)
      → IsBytes r.content
      → migrate_row gcm mode key j s r ≡ (ok s', r')
      → IsReadable gcm mode key s id
      → IsReadable gcm mode key s' id
  turn-IsReadable j id s s' r r' hr turn (t, plain, hp, found, opens) =
      elim (Bool-cases (same j id)) [
        | inr other ↦
            let (s1, r1, ends, _, _, kept) = row_other gcm mode key id hk j s r other hr in
            let one : s1 ≡ s' = cc in
            (t, plain, hp, subst (λ q. lookup id q.rows ≡ some t) one (kept ∙ found), opens)
        | inl own ↦
            let (s1, r1, ends, _, _, (t1, found1, opens1, _)) =
              row_own gcm mode key id hk plain s r hp hr (t, found, opens) in
            let turn' =
              subst (λ i. migrate_row gcm mode key i s r ≡ (ok s', r')) (same→eq j id own) turn in
            let one : s1 ≡ s' = cc in
            (t1, plain, hp, subst (λ q. lookup id q.rows ≡ some t1) one found1, opens1)
      ]

  pub loop_done :
      (ids : List Bytes) (s : Tally) (r : Reader)
      → IsBytes r.content
      → 12 * length ids ≤ length r.content
      → All (IsReadable gcm mode key s) ids
      → (s' : Tally) × (r' : Reader) × (migrate gcm mode key ids s r ≡ (ok s', r'))
        × Counted s s' (length ids)
  unfolding migrate
  loop_done [] s r hr long readable = (s, r, refl, (refl, omega arith))
  loop_done (j ∷ ids) s r hr long (now, later) =
      let r1 : Reader = record r { content = drop 12 r.content } in
      let (s1, turn, (no_error, one)) = turn_done j s r (omega arith) now in
      let (s2, r2, rest, (no_errors, others)) =
        loop_done ids s1 r1 (All-drop IsByte 12 r.content hr)
          (omega (arith, length-drop 12 r.content))
          (All-weaken (λ id h. turn-IsReadable j id s s1 r r1 hr turn h) ids later) in
      (s2, r2, rw (migrate, turn) rest, (no_errors ∙ no_error, omega arith))

  -- If there are 12 bytes of randomness for each id, the key has 32 bytes and every row that the
  -- loop comes to is there and `OpenAuto` opens it: the loop ends, the count of errors stays, every
  -- id is counted as migrated or as skipped, and each of the rows has in the end a text that `Open`
  -- opens to its plaintext.
  pub migrate-completes :
      (ids : List Bytes) (s : Tally) (r : Reader) (id plain old : Bytes)
      → IsBytes r.content
      → 12 * length ids ≤ length r.content
      → All (IsReadable gcm mode key s) ids
      → visits id ids ≡ true
      → IsBytes plain
      → lookup id s.rows ≡ some old
      → open_auto gcm mode key old [] ≡ ok plain
      → (s' : Tally) × (r' : Reader) × (migrate gcm mode key ids s r ≡ (ok s', r'))
        × (s'.errored ≡ s.errored)
        × (s'.migrated + s'.skipped ≡ s.migrated + s.skipped + length ids)
        × (t : Bytes) × (lookup id s'.rows ≡ some t)
        × (open_token gcm key t [] ≡ ok plain)
  migrate-completes ids s r id plain old hr long readable seen hp found opens =
      let (s', r', ends, (no_error, all)) = loop_done ids s r hr long readable in
      let (s2, r2, ends2, _, _, t, found2, _, moved) =
        migrate-keeps gcm mode key id hk plain old ids s r hp hr seen found opens in
      let one : s2 ≡ s' = cc in
      (
        s',
        r',
        ends,
        no_error,
        all,
        t,
        subst (λ q. lookup id q.rows ≡ some t) one found2,
        elim moved [
          | inl failed ↦ absurd (omega (arith, ap (λ (q : Tally). q.errored) one))
          | inr modern ↦ modern
        ],
      )
