-- ===== src/Examples/Migration/Rows.antt =====
-- One turn of the migration, for the row in question and for another.
use crypt.Base.{
  ℕ, ◌+◌, ◌≤◌, ◌<◌, ◌≡◌, ◌∙◌, refl, ◌⊎◌, inl, inr, [], some, Option-cases, false, Bool-cases, same,
  same_self, same→eq, length, take, drop, ltb, ltb→lt, ltb→le, All-drop, arith,
}
use mathlib.Core.Path.{subst}
use crypt.Base.Outcome.{Error, Result, ok, err, random_failure}
use crypt.Wire.{Bytes, IsByte, IsBytes}
use crypt.Assoc.{lookup, insert, lookup-insert}
use crypt.Entropy.{Reader}
use crypt.Cipher.{Aead}
use crypt.Format.{version_aead_v1}
use crypt.Format.Sealed.{token_of}
use crypt.Cbc.{Mode}
use crypt.Gcm.Seal.{seal}
use crypt.Gcm.Open.{open_token}
use crypt.Gcm.Sealed.{seal_lem, seal-no_entropy, seal_returns}
use crypt.Gcm.RoundTrip.{open_token-seal}
use crypt.Auto.{open_auto}
use crypt.Auto.Detect.{open_auto-open_token, open_auto_sound}
use crypt.Examples.Migration.{Tally, migrate_row}

seal_ends :
    (gcm : Aead) (key plain : Bytes) (r : Reader)
    → length key ≡ 32
    → IsBytes r.content
    → ((token : Bytes) × (r' : Reader) × (seal gcm key plain [] r ≡ (ok token, r'))
        × IsBytes r'.content)
      ⊎ ((e : Error) × (r' : Reader) × (seal gcm key plain [] r ≡ (err e, r')) × IsBytes r'.content)
seal_ends gcm key plain r hk hr = elim (Bool-cases (ltb (length r.content) 12)) [
  | inr enough ↦
      let long : 12 ≤ length r.content = ltb→le (length r.content) 12 enough in
      inl (
        token_of gcm version_aead_v1 key (take 12 r.content) plain [],
        record r { content = drop 12 r.content },
        seal_lem gcm key plain [] r hk long,
        All-drop IsByte 12 r.content hr,
      )
  | inl few ↦ inr (
    random_failure,
    record r { content = [] },
    seal-no_entropy gcm key plain [] r hk (ltb→lt (length r.content) 12 few),
    tt,
  )
]

-- The run ends in a tally of which `P` holds, with no fewer errors.
abbrev pub Ends : Result Tally × Reader → Tally → (Tally → Type 0) → Type 0
Ends m s P =
    (s' : Tally) × (r' : Reader) × (m ≡ (ok s', r'))
    × IsBytes r'.content
    × (s.errored ≤ s'.errored)
    × P s'

module _ (gcm : Aead) (mode : Mode) (key id : Bytes) (hk : length key ≡ 32) where
  -- The turn for another row.
  pub row_other :
      (j : Bytes) (s : Tally) (r : Reader)
      → same j id ≡ false
      → IsBytes r.content
      → Ends (migrate_row gcm mode key j s r) s (λ s'. lookup id s'.rows ≡ lookup id s.rows)
  unfolding migrate_row
  row_other j s r other hr = elim (Option-cases (lookup j s.rows)) [
    | inl missing ↦ (s, r, rw (migrate_row, missing) refl, hr, omega arith, refl)
    | inr (old, found) ↦ elim (open_auto_sound gcm mode key old []) [
      | inr fails ↦ (
        record s { errored = s.errored + 1 },
        r,
        rw (migrate_row, found, fails) refl,
        hr,
        omega arith,
        refl,
      )
      | inl (plain, opens, _) ↦ elim (seal_ends gcm key plain r hk hr) [
        | inr (e, r', fails, hr') ↦ (
          record s { errored = s.errored + 1 },
          r',
          rw (migrate_row, found, opens, fails) refl,
          hr',
          omega arith,
          refl,
        )
        | inl (new, r', sealed, hr') ↦ elim (Bool-cases (same old new)) [
          | inl kept ↦ (
            record s { skipped = s.skipped + 1 },
            r',
            rw (migrate_row, found, opens, sealed, kept) refl,
            hr',
            omega arith,
            refl,
          )
          | inr changed ↦ (
            record s { rows = insert j new s.rows; migrated = s.migrated + 1 },
            r',
            rw (migrate_row, found, opens, sealed, changed) refl,
            hr',
            omega arith,
            lookup-insert j id new s.rows ∙ rw other refl,
          )
        ]
      ]
    ]
  ]

  sealed_opens :
      (plain token : Bytes) (r r' : Reader)
      → IsBytes plain
      → IsBytes r.content
      → seal gcm key plain [] r ≡ (ok token, r')
      → open_token gcm key token [] ≡ ok plain
  sealed_opens plain token r r' hp hr sealed =
      let (_, long, _, _) = seal_returns gcm key plain [] r r' token sealed in
      let (token', sealed', _, opened) = open_token-seal gcm key plain [] r hk hp hr long in
      let both : token' ≡ token = cc in subst (λ t. open_token gcm key t [] ≡ ok plain) both opened

  -- The row has a text that `OpenAuto` opens to the plaintext.
  abbrev pub Readable : Bytes → Tally → Type 0
  Readable plain s =
      (t : Bytes) × (lookup id s.rows ≡ some t) × (open_auto gcm mode key t [] ≡ ok plain)

  -- The same, and there are more than `n` errors, or `Open` opens it as well.
  abbrev pub Moved : Bytes → ℕ → Tally → Type 0
  Moved plain n s =
      (t : Bytes) × (lookup id s.rows ≡ some t)
      × (open_auto gcm mode key t [] ≡ ok plain)
      × ((n < s.errored) ⊎ (open_token gcm key t [] ≡ ok plain))

  -- The turn for the row.
  pub row_own :
      (plain : Bytes) (s : Tally) (r : Reader)
      → IsBytes plain
      → IsBytes r.content
      → Readable plain s
      → Ends (migrate_row gcm mode key id s r) s (Moved plain s.errored)
  unfolding migrate_row
  row_own plain s r hp hr (old, found, opens) = elim (seal_ends gcm key plain r hk hr) [
    | inr (e, r', fails, hr') ↦ (
      record s { errored = s.errored + 1 },
      r',
      rw (migrate_row, found, opens, fails) refl,
      hr',
      omega arith,
      (old, found, opens, inl (omega arith)),
    )
    | inl (new, r', sealed, hr') ↦
        let modern = sealed_opens plain new r r' hp hr sealed in
        elim (Bool-cases (same old new)) [
          | inl kept ↦ (
            record s { skipped = s.skipped + 1 },
            r',
            rw (migrate_row, found, opens, sealed, kept) refl,
            hr',
            omega arith,
            (old, found, opens, inr (rw (same→eq old new kept) modern)),
          )
          | inr changed ↦ (
            record s { rows = insert id new s.rows; migrated = s.migrated + 1 },
            r',
            rw (migrate_row, found, opens, sealed, changed) refl,
            hr',
            omega arith,
            (
              new,
              lookup-insert id id new s.rows ∙ rw (same_self id) refl,
              open_auto-open_token gcm mode key [] new plain modern,
              inr modern,
            ),
          )
        ]
  ]
