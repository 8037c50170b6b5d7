-- ===== src/Examples/Migration/Loop.antt =====
-- No row that the migration can read is lost, whatever the random source does.
use crypt.Base.{
  ℕ, ◌≤◌, ◌<◌, ◌≡◌, ◌∙◌, refl, sym, ◌⊎◌, inl, inr, List, [], ◌∷◌, some, Bool, true, false,
  Bool-cases, ◌||◌, same, same→eq, length, arith,
}
use mathlib.Core.Path.{subst}
use crypt.Base.Outcome.{ok}
use crypt.Wire.{Bytes, IsBytes}
use crypt.Assoc.{lookup}
use crypt.Entropy.{Reader}
use crypt.Cipher.{Aead}
use crypt.Cbc.{Mode}
use crypt.Gcm.Open.{open_token}
use crypt.Auto.{open_auto}
use crypt.Examples.Migration.{Tally, migrate_row, migrate}
use crypt.Examples.Migration.Rows.{Ends, Moved, row_own, row_other}

-- Whether the loop comes to a row.
unfoldable pub visits : Bytes → List Bytes → Bool
visits id [] = false
visits id (j ∷ ids) = same j id || visits id ids

module _ (gcm : Aead) (mode : Mode) (key id : Bytes) (hk : length key ≡ 32) where
  -- What every turn keeps, the loop keeps.
  each_turn :
      (P : Tally → Type 0)
      → ((j : Bytes) (s : Tally) (r : Reader)
          → IsBytes r.content
          → P s
          → Ends (migrate_row gcm mode key j s r) s P)
      → (ids : List Bytes) (s : Tally) (r : Reader) → IsBytes r.content
      → P s
      → Ends (migrate gcm mode key ids s r) s P
  unfolding migrate
  each_turn P turn [] s r hr p = (s, r, refl, hr, omega arith, p)
  each_turn P turn (j ∷ ids) s r hr p =
      let (s1, r1, first, hr1, more1, p1) = turn j s r hr p in
      let (s2, r2, rest, hr2, more2, p2) = each_turn P turn ids s1 r1 hr1 p1 in
      (s2, r2, rw (migrate, first) rest, hr2, omega arith, p2)

  -- What holds with errors counted from `n` holds from any turn on.
  turn-Moved :
      (plain : Bytes) (n : ℕ) (j : Bytes) (s : Tally) (r : Reader)
      → IsBytes plain
      → IsBytes r.content
      → n ≤ s.errored
      → Moved gcm mode key id hk plain n s
      → Ends
          (migrate_row gcm mode key j s r)
          s
          (λ s'. (n ≤ s'.errored) × Moved gcm mode key id hk plain n s')
  turn-Moved plain n j s r hp hr counted (t, found, opens, moved) = elim (Bool-cases (same j id)) [
    | inr other ↦
        let (s', r', ends, hr', more, kept) = row_other gcm mode key id hk j s r other hr in
        (s', r', ends, hr', more, (omega arith, (t, kept ∙ found, opens, later s' more moved)))
    | inl own ↦
        let (s', r', ends, hr', more, (t', found', opens', moved')) =
          row_own gcm mode key id hk plain s r hp hr (t, found, opens) in
        (
          s',
          r',
          subst (λ i. migrate_row gcm mode key i s r ≡ (ok s', r')) (sym (same→eq j id own)) ends,
          hr',
          more,
          (omega arith, (t', found', opens', sooner s' moved')),
        )
  ]
    where
      later :
          (s' : Tally)
          → s.errored ≤ s'.errored
          → (n < s.errored) ⊎ (open_token gcm key t [] ≡ ok plain)
          → (n < s'.errored) ⊎ (open_token gcm key t [] ≡ ok plain)
      later s' more (inl failed) = inl (omega arith)
      later s' more (inr modern) = inr modern

      sooner : {A : Type 0} (s' : Tally) → (s.errored < s'.errored) ⊎ A → (n < s'.errored) ⊎ A
      sooner s' (inl failed) = inl (omega arith)
      sooner s' (inr modern) = inr modern

  -- For a row whose text `OpenAuto` opens to a plaintext, with a key of 32 bytes and a loop that
  -- comes to the row, whatever the random source does: the loop ends without a panic, the row is
  -- there with a text that `OpenAuto` opens to the same plaintext, and `Open` opens that text too
  -- unless the loop has counted an error.
  pub migrate-keeps :
      (plain old : Bytes) (ids : List Bytes) (s : Tally) (r : Reader)
      → IsBytes plain
      → IsBytes r.content
      → visits id ids ≡ true
      → lookup id s.rows ≡ some old
      → open_auto gcm mode key old [] ≡ ok plain
      → (s' : Tally) × (r' : Reader) × (migrate gcm mode key ids s r ≡ (ok s', r'))
        × IsBytes r'.content
        × (s.errored ≤ s'.errored)
        × (t : Bytes) × (lookup id s'.rows ≡ some t)
        × (open_auto gcm mode key t [] ≡ ok plain)
        × ((s.errored < s'.errored) ⊎ (open_token gcm key t [] ≡ ok plain))
  unfolding migrate visits
  migrate-keeps plain old [] s r hp hr seen found opens = cc
  migrate-keeps plain old (j ∷ ids) s r hp hr seen found opens = elim (Bool-cases (same j id)) [
    | inl own ↦
        let (s1, r1, first, hr1, more1, moved) =
          row_own gcm mode key id hk plain s r hp hr (old, found, opens) in
        let (s2, r2, rest, hr2, more2, (_, (t, found2, opens2, moved2))) =
          each_turn (λ s'. (s.errored ≤ s'.errored) × Moved gcm mode key id hk plain s.errored s')
            (λ k s' q hq (counted, m). turn-Moved plain s.errored k s' q hp hq counted m) ids s1 r1
            hr1 (more1, moved) in
        (
          s2,
          r2,
          rw (migrate, same→eq j id own, first) rest,
          hr2,
          omega arith,
          t,
          found2,
          opens2,
          moved2,
        )
    | inr other ↦
        let (s1, r1, first, hr1, more1, kept) = row_other gcm mode key id hk j s r other hr in
        let (s2, r2, rest, hr2, more2, t, found2, opens2, moved) =
          migrate-keeps plain old ids s1 r1 hp hr1 (rw other at seen) (kept ∙ found) opens in
        (
          s2,
          r2,
          rw (migrate, first) rest,
          hr2,
          omega arith,
          t,
          found2,
          opens2,
          elim moved [ inl failed ↦ inl (omega arith) | inr modern ↦ inr modern ],
        )
  ]
