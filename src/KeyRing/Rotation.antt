-- ===== src/KeyRing/Rotation.antt =====
-- Sealing, and what stays readable while keys come and go.
use crypt.Base.{
  ◌%◌, ◌≤◌, ◌≡◌, ◌≢◌, refl, List, [], ◌∷◌, ◌++◌, length, some, inl, inr, arith, same_iff, take,
  drop, length-take, All-append, All-take,
}
use crypt.Base.Outcome.{ok}
use crypt.Wire.{Bytes, IsByte, IsBytes}
use crypt.Wire.Base64
use crypt.Entropy.{Reader}
use crypt.Entropy.Laws.{draw-enough}
use crypt.Cipher.{Aead, seal_with_12}
use crypt.Assoc.{lookup, lookup-insert, lookup-delete}
use crypt.KeyRing.{
  KeyRing, Call, call_add, call_remove, call_set_active, step, run, add, remove, set_active,
}
use crypt.KeyRing.Invariant.{IsValid, add_cases, remove_cases, set_active_cases}
use crypt.KeyRing.Seal.{ring_seal, seal_kid_frame}
use crypt.KeyRing.Open.{ring_open}
use crypt.KeyRing.Version3.{kid_frame}
use crypt.KeyRing.Dispatch.{ring_open-by_kid}

-- No call of the sequence removes the kid.
abbrev pub Keeps : Bytes → List Call → Type 0
Keeps kid [] = Unit {0}
Keeps kid (call_add j key ∷ cs) = Keeps kid cs
Keeps kid (call_remove j ∷ cs) = (j ≢ kid) × Keeps kid cs
Keeps kid (call_set_active j ∷ cs) = Keeps kid cs

lookup-add :
    (r : KeyRing) (kid j key key' : Bytes)
    → lookup kid r.keys ≡ some key
    → lookup kid (add r j key').0.keys ≡ some key
lookup-add r kid j key key' bound = elim (add_cases r j key') [
  | inl e ↦ rw e bound
  | inr (_, free, e) ↦ rw e (ground (arith, lookup-insert j kid key' r.keys, same_iff j kid))
]

lookup-remove :
    (r : KeyRing) (kid j key : Bytes)
    → j ≢ kid
    → lookup kid r.keys ≡ some key
    → lookup kid (remove r j).0.keys ≡ some key
lookup-remove r kid j key other bound = elim (remove_cases r j) [
  | inl e ↦ rw e bound
  | inr (_, e) ↦ rw e (ground (arith, lookup-delete j kid r.keys, same_iff j kid))
]

lookup-set_active :
    (r : KeyRing) (kid j key : Bytes)
    → lookup kid r.keys ≡ some key
    → lookup kid (set_active r j).0.keys ≡ some key
lookup-set_active r kid j key bound = elim (set_active_cases r j) [
  | inl e ↦ rw e bound
  | inr (_, e) ↦ rw e bound
]

-- The key of a kid that is not removed is never replaced.
pub lookup-run :
    (cs : List Call) (r : KeyRing) (kid key : Bytes)
    → Keeps kid cs
    → lookup kid r.keys ≡ some key
    → lookup kid (run r cs).keys ≡ some key
unfolding run step
lookup-run [] r kid key k bound = bound
lookup-run (call_add j key' ∷ cs) r kid key k bound =
    lookup-run cs (add r j key').0 kid key k (lookup-add r kid j key key' bound)
lookup-run (call_remove j ∷ cs) r kid key (other, k) bound =
    lookup-run cs (remove r j).0 kid key k (lookup-remove r kid j key other bound)
lookup-run (call_set_active j ∷ cs) r kid key k bound =
    lookup-run cs (set_active r j).0 kid key k (lookup-set_active r kid j key bound)

module _ (c : Aead) (r : KeyRing) (plain aad : Bytes) (source : Reader) where
  abbrev pub kid_token : Bytes → Bytes
  kid_token key =
      Base64.encode Base64.url (kid_frame c r.active key (take 12 source.content) plain aad)

  pub ring_seal_lem :
      (key : Bytes)
      → lookup r.active r.keys ≡ some key
      → length r.active ≤ 64
      → 12 ≤ length source.content
      → ring_seal c r plain aad source
        ≡ (ok (kid_token key), record source { content = drop 12 source.content })
  unfolding ring_seal seal_kid_frame
  ring_seal_lem key bound hi enough =
      let size : length r.active % 256 ≡ length r.active = omega arith in
      rw
        (
          draw-enough 12 source enough,
          bound,
          seal_with_12 c key (take 12 source.content) plain aad
              (omega (arith, length-take 12 source.content)),
          size,
        )
        refl

  pub kid_token-decode :
      (key : Bytes)
      → length r.active ≤ 64
      → IsBytes r.active
      → IsBytes plain
      → IsBytes source.content
      → Base64.decode Base64.url (kid_token key)
        ≡ some (kid_frame c r.active key (take 12 source.content) plain aad)
  kid_token-decode key hi ha hp hs =
      let nonce : Bytes = take 12 source.content in
      let body : Bytes = c.seal key nonce plain aad in
      Base64.RoundTrip.decode-encode Base64.url Base64.RoundTrip.url-IsAlphabet _ (
        omega arith,
        (
          omega arith,
          All-append IsByte r.active (nonce ++ body) ha (
              All-append IsByte nonce body (All-take IsByte 12 source.content hs)
                (c.seal-IsBytes key nonce plain aad hp)),
        ),
      )

  -- A well-formed ring with 12 bytes in the source seals, and after any sequence of calls that
  -- does not remove the kid that was active, the ring opens the token with the same additional
  -- data, whatever the order of iteration: keys that are added, other keys that are removed, and a
  -- new active key change nothing.
  pub ring_open-run-ring_seal :
      (cs : List Call) (order : List Bytes)
      → IsValid r
      → Keeps r.active cs
      → IsBytes r.active
      → IsBytes plain
      → IsBytes source.content
      → 12 ≤ length source.content
      → (token : Bytes) × (ring_seal c r plain aad source
          ≡ (ok token, record source { content = drop 12 source.content }))
        × (ring_open c (run r cs) order token aad ≡ ok plain)
  ring_open-run-ring_seal cs order valid keeps ha hp hs enough =
      let (key, bound) = valid.active_bound in
      let (_, lo, hi) = valid.entries_fit r.active key bound in
      let nonce : Bytes = take 12 source.content in
      (
        kid_token key,
        ring_seal_lem key bound hi enough,
        ring_open-by_kid c (run r cs) aad order (kid_token key)
            (kid_frame c r.active key nonce plain aad) plain (kid_token-decode key hi ha hp hs)
            (
              r.active,
              key,
              nonce,
              lookup-run cs r r.active key keeps bound,
              lo,
              hi,
              omega (arith, length-take 12 source.content),
              refl,
            ),
      )
