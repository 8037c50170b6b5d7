-- ===== src/Examples/Tenants.antt =====
-- examples/tenant_keys: a key for each tenant, derived from the key of the application, and the
-- loops of the program.
pub mod Run
mod Tests
use crypt.Base.{true, List, [], ◌∷◌, ◌++◌, Option, none, some}
use crypt.Base.Outcome.{Result, ok, err, slice, random_failure}
use crypt.Wire.{Bytes}
use crypt.Wire.Text.{codes}
use crypt.Entropy.{Filled, full, short, fault, read_full}
use crypt.Cipher.{Aead}
use crypt.Format.{aead_key_size}
use crypt.Assoc.{Map, lookup, insert}
use crypt.Gcm.Seal.{seal}
use crypt.Gcm.Open.{open_token}
use crypt.Hkdf.{Hkdf}
use crypt.Examples.Program.{Program, text, ◌>>=◌, ◌>>◌, lift, drawn, print, print_failure}

-- `if _, err := io.ReadFull(h, out); err != nil { return nil, err }`
abbrev pub read_key : Filled → Result Bytes
read_key (full out) = ok out
read_key (short _) = err random_failure
read_key fault = err random_failure

-- `deriveTenantKey`
unfoldable pub derive_tenant_key : Hkdf → Bytes → Bytes → Result Bytes
derive_tenant_key h root tenant =
    read_key
      (read_full aead_key_size
        (record { content = h.output root [] (codes "tenant:" ++ tenant); faulty = true })).0

-- `m[k]`: a key that is missing has the value nil.
abbrev pub or_nil : Option Bytes → Bytes
or_nil none = []
or_nil (some v) = v

abbrev pub value_at : Map → Bytes → Bytes
value_at m k = or_nil (lookup k m)

-- The first loop of `main`: the map of the keys.
unfoldable pub derive_keys : Hkdf → Bytes → List Bytes → Map → Program Map
derive_keys h root [] keys = lift (ok keys)
derive_keys h root (t ∷ tenants) keys = do
  k ← lift (derive_tenant_key h root t)
  head ← lift (slice 0 8 k)
  print (text t ∷ text head ∷ [])
  derive_keys h root tenants (insert t k keys)

-- The second loop: the map of the ciphertexts.
unfoldable pub seal_each : Aead → Map → Bytes → List Bytes → Map → Program Map
seal_each c keys plain [] enc = lift (ok enc)
seal_each c keys plain (t ∷ tenants) enc = do
  ct ← drawn (seal c (value_at keys t) plain [])
  seal_each c keys plain tenants (insert t ct enc)

-- The third loop.
unfoldable pub open_each : Aead → Map → Map → List Bytes → Program (Unit {0})
open_each c keys enc [] = lift (ok tt)
open_each c keys enc (t ∷ tenants) = do
  pt ← lift (open_token c (value_at keys t) (value_at enc t) [])
  print (text t ∷ text pt ∷ [])
  open_each c keys enc tenants

-- `main`, for a list of tenants.
unfoldable pub tenants_main : Hkdf → Aead → Bytes → List Bytes → Bytes → Program (Unit {0})
tenants_main h c root tenants plain = do
  keys ← derive_keys h root tenants []
  enc ← seal_each c keys plain tenants []
  open_each c keys enc tenants
  print_failure (open_token c (value_at keys (codes "acme")) (value_at enc (codes "globex")) [])
