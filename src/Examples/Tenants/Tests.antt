-- ===== src/Examples/Tenants/Tests.antt =====
-- The theorem on examples/tenant_keys with the sample functions and the tenants of the program.
use crypt.Base.{All, ◌≡◌, List, [], ◌∷◌, ◌++◌, arith}
use crypt.Base.Outcome.{ok}
use crypt.Wire.{Bytes}
use crypt.Wire.Text.{codes}
use crypt.Entropy.{Reader}
use crypt.Cipher.Sample.{sample}
use crypt.Assoc.{Map}
use crypt.Gcm.Open.{open_token}
use crypt.Hkdf.Sample.{sample_hkdf}
use crypt.Examples.Program.{failures}
use crypt.Examples.Tenants.{value_at, derive_keys, seal_each, tenants_main}
use crypt.Examples.Tenants.Run.{Own, Sealed, heads, plains, tenants_main-prints}
use crypt.Samples.{hello, key_32, source}

abbrev three_tenants : List Bytes
three_tenants = codes "acme" ∷ codes "globex" ∷ codes "initech" ∷ []

tenants_main-prints_example :
    (keys enc : Map) × (r' : Reader) × (derive_keys sample_hkdf key_32 three_tenants []
        (record { random = source; printed = [] })
      ≡ (ok keys, record { random = source; printed = heads sample_hkdf key_32 three_tenants }))
    × (seal_each sample keys hello three_tenants []
          (record { random = source; printed = heads sample_hkdf key_32 three_tenants })
        ≡ (ok enc, record { random = r'; printed = heads sample_hkdf key_32 three_tenants }))
    × All (Own sample_hkdf key_32 keys) three_tenants
    × All (Sealed sample_hkdf key_32 sample keys hello (omega arith) enc) three_tenants
    × (tenants_main sample_hkdf sample key_32 three_tenants hello
          (record { random = source; printed = [] })
        ≡ (
          ok tt,
          record {
            random = r';
            printed =
                (heads sample_hkdf key_32 three_tenants ++ plains hello three_tenants)
                ++ failures (
                    open_token sample
                      (value_at keys (codes "acme"))
                      (value_at enc (codes "globex"))
                      []);
          },
        ))
tenants_main-prints_example =
    tenants_main-prints sample_hkdf sample key_32 hello three_tenants source (omega arith)
      (omega arith) (omega arith)
