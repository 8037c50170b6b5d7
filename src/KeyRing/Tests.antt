-- ===== src/KeyRing/Tests.antt =====
-- The theorems on keyring.go at a ring of one key, with the sample cipher.
use crypt.Base.{
  ◌≡◌, ◌≢◌, ◌⊎◌, ◌++◌, refl, List, [], ◌∷◌, some, drop, arith, same, same_iff, All-append,
}
use crypt.Base.Outcome.{Error, ok, err, duplicate_kid, active_kid}
use crypt.Wire.{Bytes, IsByte}
use crypt.Wire.Base64
use crypt.Cipher.Sample.{sample}
use crypt.Cipher.{new_gcm_32}
use crypt.Format.{version_aead_v1}
use crypt.Format.Accepts.{frame, read_frame_iff}
use crypt.Format.Sealed.{token_of, frame-IsBytes}
use crypt.Assoc.{lookup}
use crypt.KeyRing.{
  KeyRing, Call, call_add, call_remove, call_set_active, run, step, add, remove, set_active,
  new_key_ring, valid_kid,
}
use crypt.KeyRing.Spec.{Runs, view, answers_of, run-Runs}
use crypt.KeyRing.Invariant.{IsValid, run-IsValid}
use crypt.KeyRing.Seal.{ring_seal}
use crypt.KeyRing.Open.{ring_open}
use crypt.KeyRing.Version3.{SealedByKid, kid_frame}
use crypt.KeyRing.Version1.{SealedByOne, Ranges, member}
use crypt.KeyRing.Dispatch.{
  SealedInRing, ring_open-cases, ring_open-by_kid, ring_open-by_one, ring_open_one_plain,
}
use crypt.KeyRing.Rotation.{ring_open-run-ring_seal}
use crypt.Samples.{key_32, other_key_32, nonce_12, hello, context, source}

abbrev kid_a : Bytes
kid_a = b'a' ∷ []

abbrev kid_b : Bytes
kid_b = b'b' ∷ []

abbrev ring_a : KeyRing
ring_a = record { active = kid_a; keys = (kid_a, key_32) ∷ []; raw_keys = (kid_a, key_32) ∷ [] }

-- A second key is added and made active, and the call that would remove it then fails.
abbrev rotation : List Call
rotation = call_add kid_b other_key_32 ∷ call_set_active kid_b ∷ call_remove kid_b ∷ []

ring_a_new : new_key_ring kid_a key_32 ≡ ok ring_a
unfolding new_key_ring valid_kid
ring_a_new = rw (new_gcm_32 key_32 refl) refl

run-IsValid_example : IsValid (run ring_a rotation)
run-IsValid_example = run-IsValid kid_a key_32 ring_a rotation ring_a_new

run_none-IsValid : IsValid (run ring_a [])
run_none-IsValid = run-IsValid kid_a key_32 ring_a [] ring_a_new

ring_a-IsValid : IsValid ring_a
unfolding run
ring_a-IsValid = run_none-IsValid

ring_a-Ranges : Ranges ring_a (kid_a ∷ [])
unfolding member lookup same
ring_a-Ranges = record {
  only_keys = ((key_32, refl), tt);
  every_key = λ kid (key, bound). ground arith;
}

abbrev token_a : Bytes
token_a = Base64.encode Base64.url (kid_frame sample kid_a key_32 nonce_12 hello context)

token_a_raw :
    Base64.decode Base64.url token_a ≡ some (kid_frame sample kid_a key_32 nonce_12 hello context)
token_a_raw = Base64.RoundTrip.decode-encode Base64.url Base64.RoundTrip.url-IsAlphabet _ (
  omega arith,
  (
    omega arith,
    (
      omega arith,
      All-append IsByte nonce_12 (sample.seal key_32 nonce_12 hello context) (omega arith)
          (sample.seal-IsBytes key_32 nonce_12 hello context (omega arith)),
    ),
  ),
)

token_a-SealedByKid :
    SealedByKid sample ring_a (kid_frame sample kid_a key_32 nonce_12 hello context) context hello
unfolding lookup same
token_a-SealedByKid = (kid_a, key_32, nonce_12, refl, omega arith, omega arith, refl, refl)

ring_open-by_kid_example : ring_open sample ring_a [] token_a context ≡ ok hello
ring_open-by_kid_example =
    ring_open-by_kid sample ring_a context [] token_a
      (kid_frame sample kid_a key_32 nonce_12 hello context) hello token_a_raw token_a-SealedByKid

ring_open-cases_example :
    ((e : Error) × (ring_open sample ring_a (kid_a ∷ []) token_a context ≡ err e))
    ⊎ ((plain raw : Bytes) × (ring_open sample ring_a (kid_a ∷ []) token_a context ≡ ok plain)
        × (Base64.decode Base64.url token_a ≡ some raw)
        × SealedInRing sample ring_a context raw plain)
ring_open-cases_example =
    ring_open-cases sample ring_a context (kid_a ∷ []) token_a ring_a-IsValid ring_a-Ranges

abbrev old_raw : Bytes
old_raw = frame sample version_aead_v1 key_32 nonce_12 hello context

abbrev old_token : Bytes
old_token = token_of sample version_aead_v1 key_32 nonce_12 hello context

old_token_raw : Base64.decode Base64.url old_token ≡ some old_raw
old_token_raw = Base64.RoundTrip.decode-encode Base64.url Base64.RoundTrip.url-IsAlphabet old_raw (
    frame-IsBytes sample version_aead_v1 key_32 nonce_12 hello context (omega arith) (omega arith)
      (omega arith))

old_token-SealedByOne : SealedByOne sample ring_a old_raw context hello
unfolding lookup same
old_token-SealedByOne = (kid_a, key_32, refl, (nonce_12, refl, refl))

ring_a_key : (kid key : Bytes) → lookup kid ring_a.keys ≡ some key → key ≡ key_32
unfolding lookup
ring_a_key kid key bound = ground (arith, same_iff kid_a kid)

old_token_one_plaintext :
    (other : Bytes) → SealedByOne sample ring_a old_raw context other → other ≡ hello
old_token_one_plaintext other (kid, key, bound, (nonce, long, shape)) = cc (
  (read_frame_iff sample version_aead_v1 key context old_raw other).1 (nonce, long, shape),
  ring_a_key kid key bound,
  (read_frame_iff sample version_aead_v1 key_32 context old_raw hello).1 (nonce_12, refl, refl),
)

ring_open-by_one_example :
    (opened : Bytes) × (ring_open sample ring_a (kid_a ∷ []) old_token context ≡ ok opened)
    × SealedByOne sample ring_a old_raw context opened
ring_open-by_one_example =
    ring_open-by_one sample ring_a context (kid_a ∷ []) old_token old_raw hello ring_a-IsValid
      ring_a-Ranges old_token_raw old_token-SealedByOne

old_token_opened : ring_open sample ring_a (kid_a ∷ []) old_token context ≡ ok hello
old_token_opened =
    ring_open_one_plain sample ring_a context (kid_a ∷ []) old_token old_raw hello ring_a-IsValid
      ring_a-Ranges old_token_raw old_token-SealedByOne old_token_one_plaintext

run-Runs_example :
    Runs (view ring_a) rotation (answers_of ring_a rotation) (view (run ring_a rotation))
run-Runs_example = run-Runs ring_a rotation

-- Removing the active key and adding a kid again are refused.
rotation-answers :
    answers_of ring_a (rotation ++ (call_add kid_a key_32 ∷ []))
    ≡ ok tt ∷ ok tt ∷ err active_kid ∷ err duplicate_kid ∷ []
unfolding answers_of step add set_active remove valid_kid crypt.Assoc.has crypt.Assoc.insert same
rotation-answers = rw (new_gcm_32 other_key_32 refl) refl

kids_differ : kid_b ≢ kid_a
kids_differ = ground arith

ring_open-run-ring_seal_example :
    (token : Bytes) × (ring_seal sample ring_a hello context source
      ≡ (ok token, record source { content = drop 12 source.content }))
    × (ring_open sample (run ring_a rotation) (kid_b ∷ kid_a ∷ []) token context ≡ ok hello)
ring_open-run-ring_seal_example =
    ring_open-run-ring_seal sample ring_a hello context source rotation (kid_b ∷ kid_a ∷ [])
      ring_a-IsValid (kids_differ, tt) (omega arith) (omega arith) (omega arith) (omega arith)
