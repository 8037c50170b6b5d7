-- ===== src/KeyRing/Spec.antt =====
-- What keyring.go promises of `Add`, `Remove` and `SetActive`, as a state machine whose state is the
-- active kid and a function from kids to keys, and that the ring is one.
use crypt.Base.{
  ◌≤◌, ◌<◌, ◌≡◌, ◌≢◌, refl, sym, List, [], ◌∷◌, length, arith, Option, none, some, same, same→eq,
  same_iff, inl, inr, Bool-cases, ltb, ltb→lt, ltb→le, ◌==◌, ==→eq, ==-false, if◌then◌else◌, ap,
}
use mathlib.Core.Path.{subst, fun_ext}
use crypt.Base.Outcome.{
  Result, ok, err, invalid_key, empty_kid, kid_too_long, duplicate_kid, unknown_kid, active_kid,
}
use crypt.Wire.{Bytes}
use crypt.Cipher.{new_gcm_32}
use crypt.Assoc.{lookup, has, insert, delete, lookup-insert, lookup-delete, has-lookup, has_missing}
use crypt.KeyRing.{
  KeyRing, valid_kid, add, remove, set_active, Call, call_add, call_remove, call_set_active, step,
  run,
}

-- The abstract ring.
pub record Keys : Type 0 where
  pub active : Bytes
  pub key_of : Bytes → Option Bytes

abbrev pub bound : Keys → Bytes → Option Bytes → Keys
bound s kid key = record s { key_of = λ j. if same kid j then key else s.key_of j }

abbrev pub Answer : Type 0
Answer = Result (Unit {0})

-- `Does s c s' a`: in the state `s` the call `c` may be answered by `a` and lead to `s'`.
pub data Does (s : Keys) : Call → Keys → Answer → Type 0 where
  added :
      (kid key : Bytes)
      → 1 ≤ length kid
      → length kid ≤ 64
      → s.key_of kid ≡ none
      → length key ≡ 32
      → Does s (call_add kid key) (bound s kid (some key)) (ok tt)
  add_empty : (kid key : Bytes) → length kid ≡ 0 → Does s (call_add kid key) s (err empty_kid)
  add_long : (kid key : Bytes) → 64 < length kid → Does s (call_add kid key) s (err kid_too_long)
  add_twice :
      (kid key old : Bytes)
      → 1 ≤ length kid
      → length kid ≤ 64
      → s.key_of kid ≡ some old
      → Does s (call_add kid key) s (err duplicate_kid)
  add_bad_key :
      (kid key : Bytes)
      → 1 ≤ length kid
      → length kid ≤ 64
      → s.key_of kid ≡ none
      → length key ≢ 32
      → Does s (call_add kid key) s (err invalid_key)
  removed :
      (kid key : Bytes)
      → kid ≢ s.active
      → s.key_of kid ≡ some key
      → Does s (call_remove kid) (bound s kid none) (ok tt)
  remove_active : (kid : Bytes) → kid ≡ s.active → Does s (call_remove kid) s (err active_kid)
  remove_unknown :
      (kid : Bytes)
      → kid ≢ s.active
      → s.key_of kid ≡ none
      → Does s (call_remove kid) s (err unknown_kid)
  activated :
      (kid key : Bytes)
      → s.key_of kid ≡ some key
      → Does s (call_set_active kid) (record s { active = kid }) (ok tt)
  activate_unknown :
      (kid : Bytes) → s.key_of kid ≡ none → Does s (call_set_active kid) s (err unknown_kid)

-- A sequence of calls, with their answers.
pub data Runs : Keys → List Call → List Answer → Keys → Type 0 where
  no_calls : (s : Keys) → Runs s [] [] s
  one_call :
      (s s' s'' : Keys) (c : Call) (a : Answer) (cs : List Call) (answers : List Answer)
      → Does s c s' a
      → Runs s' cs answers s''
      → Runs s (c ∷ cs) (a ∷ answers) s''

-- The abstract ring of a ring.
abbrev pub view : KeyRing → Keys
view r = record { active = r.active; key_of = λ kid. lookup kid r.keys }

-- The answers to a sequence of calls.
unfoldable pub answers_of : KeyRing → List Call → List Answer
answers_of r [] = []
answers_of r (c ∷ cs) = (step r c).1 ∷ answers_of (step r c).0 cs

-- A call whose outcome is known.
by_outcome :
    (s : Keys) (c : Call) (out : KeyRing × Answer) (r' : KeyRing) (a : Answer)
    → out ≡ (r', a)
    → Does s c (view r') a
    → Does s c (view out.0) out.1
by_outcome s c out r' a e does =
    subst (λ (t : KeyRing × Answer). Does s c (view t.0) t.1) (sym e) does

module _ (r : KeyRing) (kid : Bytes) where
  with_keys :
      (f g : Bytes → Option Bytes)
      → ((j : Bytes) → f j ≡ g j)
      → (a : Bytes)
      → ◌≡◌ {A = Keys} (record { active = a; key_of = f }) (record { active = a; key_of = g })
  with_keys f g h a =
      ap (λ (t : Bytes → Option Bytes). record { active = a; key_of = t }) (fun_ext h)

  add-Does :
      (key : Bytes) → Does (view r) (call_add kid key) (view (add r kid key).0) (add r kid key).1
  unfolding add valid_kid
  add-Does key =
      let call : Call = call_add kid key in
      elim (Bool-cases (length kid == 0)) [
        | inl empty ↦
            by_outcome (view r) call (add r kid key) r (err empty_kid) (rw (add, empty) refl)
              (add_empty kid key (==→eq (length kid) 0 empty))
        | inr some_kid ↦
            let nonempty = ==-false (length kid) 0 some_kid in
            elim (Bool-cases (ltb 64 (length kid))) [
              | inl long ↦
                  by_outcome (view r) call (add r kid key) r (err kid_too_long)
                    (rw (add, some_kid, long) refl) (add_long kid key (ltb→lt 64 (length kid) long))
              | inr short ↦
                  let fits = ltb→le 64 (length kid) short in
                  elim (Bool-cases (has kid r.keys)) [
                    | inl taken ↦
                        let (old, found) = has-lookup kid r.keys taken in
                        by_outcome (view r) call (add r kid key) r (err duplicate_kid)
                          (rw (add, some_kid, short, taken) refl)
                          (add_twice kid key old (omega arith) fits found)
                    | inr free ↦
                        let missing = has_missing kid r.keys free in
                        elim (Bool-cases (length key == 32)) [
                          | inr bad ↦
                              by_outcome (view r) call (add r kid key) r (err invalid_key)
                                (rw (add, some_kid, short, free, bad) refl)
                                (add_bad_key kid key (omega arith) fits missing
                                  (==-false (length key) 32 bad))
                          | inl good ↦
                              let long_key = ==→eq (length key) 32 good in
                              by_outcome (view r) call (add r kid key)
                                (record r {
                                  keys = insert kid key r.keys;
                                  raw_keys = insert kid key r.raw_keys;
                                })
                                (ok tt)
                                (rw (add, some_kid, short, free, good, new_gcm_32 key long_key)
                                  refl)
                                (subst (λ s'. Does (view r) call s' (ok tt))
                                  (with_keys _ _ (λ j. sym (lookup-insert kid j key r.keys))
                                    r.active)
                                  (added kid key (omega arith) fits missing long_key))
                        ]
                  ]
            ]
      ]

  remove-Does : Does (view r) (call_remove kid) (view (remove r kid).0) (remove r kid).1
  unfolding remove
  remove-Does =
      let call : Call = call_remove kid in
      elim (Bool-cases (same kid r.active)) [
        | inl active_one ↦
            by_outcome (view r) call (remove r kid) r (err active_kid)
              (rw (remove, active_one) refl) (remove_active kid (same→eq kid r.active active_one))
        | inr other ↦
            let different : kid ≢ r.active = λ e. cc (other, (same_iff kid r.active).1 e) in
            elim (Bool-cases (has kid r.keys)) [
              | inr free ↦
                  by_outcome (view r) call (remove r kid) r (err unknown_kid)
                    (rw (remove, other, free) refl)
                    (remove_unknown kid different (has_missing kid r.keys free))
              | inl there ↦
                  let (key, found) = has-lookup kid r.keys there in
                  by_outcome (view r) call (remove r kid)
                    (record r { keys = delete kid r.keys; raw_keys = delete kid r.raw_keys })
                    (ok tt) (rw (remove, other, there) refl)
                    (subst (λ s'. Does (view r) call s' (ok tt))
                      (with_keys _ _ (λ j. sym (lookup-delete kid j r.keys)) r.active)
                      (removed kid key different found))
            ]
      ]

  set_active-Does :
      Does (view r) (call_set_active kid) (view (set_active r kid).0) (set_active r kid).1
  unfolding set_active
  set_active-Does =
      let call : Call = call_set_active kid in
      elim (Bool-cases (has kid r.keys)) [
        | inr free ↦
            by_outcome (view r) call (set_active r kid) r (err unknown_kid)
              (rw (set_active, free) refl) (activate_unknown kid (has_missing kid r.keys free))
        | inl there ↦
            let (key, found) = has-lookup kid r.keys there in
            by_outcome (view r) call (set_active r kid) (record r { active = kid }) (ok tt)
              (rw (set_active, there) refl) (activated kid key found)
      ]

step-Does : (r : KeyRing) (c : Call) → Does (view r) c (view (step r c).0) (step r c).1
unfolding step
step-Does r (call_add kid key) = add-Does r kid key
step-Does r (call_remove kid) = remove-Does r kid
step-Does r (call_set_active kid) = set_active-Does r kid

-- For every ring and every sequence of calls of `Add`, `Remove` and `SetActive`, the answers and the
-- ring at the end are those of a run of the state machine from what the ring stands for.
pub run-Runs : (r : KeyRing) (cs : List Call) → Runs (view r) cs (answers_of r cs) (view (run r cs))
unfolding run answers_of
run-Runs r [] = no_calls (view r)
run-Runs r (c ∷ cs) =
    one_call (view r) (view (step r c).0) (view (run (step r c).0 cs)) c (step r c).1 cs
      (answers_of (step r c).0 cs) (step-Does r c) (run-Runs (step r c).0 cs)
