-- ===== src/Examples/Tenants/Run.antt =====
-- What the loops of examples/tenant_keys do, for every list of tenants.
use crypt.Base.{
  ◌*◌, ◌≤◌, ◌≡◌, ◌∙◌, refl, sym, ap, inl, inr, List, [], ◌∷◌, ◌++◌, append_assoc, append-nil,
  length, some, Bool-cases, same, same_self, same→eq, All, All-drop, take, drop, length-drop,
  length-take, arith, le→leb,
}
use mathlib.Core.Path.{subst}
use crypt.Base.Outcome.{ok, slice-in_range}
use crypt.Wire.{Bytes, IsByte, IsBytes}
use crypt.Wire.Text.{codes}
use crypt.Entropy.{Reader, read_full}
use crypt.Cipher.{Aead}
use crypt.Assoc.{Map, lookup, insert, lookup-insert}
use crypt.Gcm.Open.{open_token}
use crypt.Gcm.Accepts.{open_token-ne-panic}
use crypt.Gcm.RoundTrip.{open_token-seal}
use crypt.Base.Int.{pos}
use crypt.Hkdf.{Hkdf, derive_key, derive_key_iff}
use crypt.Examples.Program.{Shown, World, text, failures, print_failure_lem}
use crypt.Examples.Tenants.{
  derive_tenant_key, value_at, derive_keys, seal_each, open_each, tenants_main,
}

-- The key of a tenant: the first 32 bytes that HKDF delivers for the tenant.
abbrev pub key_of : Hkdf → Bytes → Bytes → Bytes
key_of h root t = take 32 (h.output root [] (codes "tenant:" ++ t))

-- What the first loop prints.
unfoldable pub heads : Hkdf → Bytes → List Bytes → List Shown
heads h root [] = []
heads h root (t ∷ tenants) = text t ∷ text (take 8 (key_of h root t)) ∷ heads h root tenants

-- What the third loop prints.
unfoldable pub plains : Bytes → List Bytes → List Shown
plains plain [] = []
plains plain (t ∷ tenants) = text t ∷ text plain ∷ plains plain tenants

module _ (h : Hkdf) (root : Bytes) where
  length-key_of : (t : Bytes) → length (key_of h root t) ≡ 32
  length-key_of t =
      let info : Bytes = codes "tenant:" ++ t in
      omega (arith, length-take 32 (h.output root [] info), h.length-output root [] info)

  derive_tenant_key_lem : (t : Bytes) → derive_tenant_key h root t ≡ ok (key_of h root t)
  unfolding derive_tenant_key read_full
  derive_tenant_key_lem t =
      let info : Bytes = codes "tenant:" ++ t in
      rw (le→leb 32 (length (h.output root [] info)) (omega (arith, h.length-output root [] info)))
        refl

  -- It is the key that `DeriveKey` returns, unless the key of the application is empty.
  derive_tenant_key-derive_key :
      (t : Bytes)
      → 1 ≤ length root
      → derive_key h root [] (codes "tenant:" ++ t) (pos 32) ≡ derive_tenant_key h root t
  derive_tenant_key-derive_key t some_key =
      (derive_key_iff h root [] (codes "tenant:" ++ t) (key_of h root t) (pos 32)).1
        (refl, some_key, omega arith, refl)
      ∙ sym (derive_tenant_key_lem t)

  -- Every key of the map is the tenant's own.
  abbrev pub Own : Map → Bytes → Type 0
  Own keys t = lookup t keys ≡ some (key_of h root t)

  insert-Own : (t u : Bytes) (keys : Map) → Own keys u → Own (insert t (key_of h root t) keys) u
  insert-Own t u keys own =
      lookup-insert t u (key_of h root t) keys ∙ elim (Bool-cases (same t u)) [
        | inl one ↦ rw one (ap (λ v. some (key_of h root v)) (same→eq t u one))
        | inr other ↦ rw other own
      ]

  derive_keys_lem :
      (tenants : List Bytes) (keys : Map) (w : World)
      → (keys' : Map) × (derive_keys h root tenants keys w
          ≡ (ok keys', record w { printed = w.printed ++ heads h root tenants }))
        × All (Own keys') tenants
        × ((u : Bytes) → Own keys u → Own keys' u)
  unfolding derive_keys heads
  derive_keys_lem [] keys w = (
    keys,
    ap (λ t. (ok keys, record w { printed = t })) (sym (append-nil w.printed)),
    tt,
    λ u own. own,
  )
  derive_keys_lem (t ∷ tenants) keys w =
      let k : Bytes = key_of h root t in
      let shown : List Shown = text t ∷ text (take 8 k) ∷ [] in
      let (keys', rest, own, stays) =
        derive_keys_lem tenants (insert t k keys) (record w { printed = w.printed ++ shown }) in
      (
        keys',
        rw
              (
                derive_keys,
                derive_tenant_key_lem t,
                slice-in_range 0 8 k (omega arith) (omega (arith, length-key_of t)),
              )
              rest
            ∙ ap (λ s. (ok keys', record w { printed = s }))
                (append_assoc w.printed shown (heads h root tenants)),
        (stays t (lookup-insert t t k keys ∙ rw (same_self t) refl), own),
        λ u mine. stays u (insert-Own t u keys mine),
      )

  module _ (c : Aead) (keys : Map) (plain : Bytes) (hp : IsBytes plain) where
    -- The ciphertext of the tenant opens with the tenant's key.
    abbrev pub Sealed : Map → Bytes → Type 0
    Sealed enc t =
        (ct : Bytes) × (lookup t enc ≡ some ct) × (open_token c (key_of h root t) ct [] ≡ ok plain)

    insert-Sealed :
        (t u ct : Bytes) (enc : Map)
        → open_token c (key_of h root t) ct [] ≡ ok plain
        → Sealed enc u
        → Sealed (insert t ct enc) u
    insert-Sealed t u ct enc opens (old, found, old_opens) = elim (Bool-cases (same t u)) [
      | inl one ↦ (
        ct,
        lookup-insert t u ct enc ∙ rw one refl,
        subst (λ v. open_token c (key_of h root v) ct [] ≡ ok plain) (same→eq t u one) opens,
      )
      | inr other ↦ (old, lookup-insert t u ct enc ∙ rw other found, old_opens)
    ]

    seal_each-Sealed :
        (tenants : List Bytes) (enc : Map) (r : Reader) (shown : List Shown)
        → All (Own keys) tenants
        → IsBytes r.content
        → 12 * length tenants ≤ length r.content
        → (enc' : Map) × (r' : Reader) × (seal_each c keys plain tenants enc
              (record { random = r; printed = shown })
            ≡ (ok enc', record { random = r'; printed = shown }))
          × All (Sealed enc') tenants
          × ((u : Bytes) → Sealed enc u → Sealed enc' u)
    unfolding seal_each
    seal_each-Sealed [] enc r shown own hr enough = (enc, r, refl, tt, λ u s. s)
    seal_each-Sealed (t ∷ tenants) enc r shown (mine, own) hr enough =
        let r1 : Reader = record r { content = drop 12 r.content } in
        let (ct, sealed, _, opens) =
          open_token-seal c (key_of h root t) plain [] r (length-key_of t) hp hr (omega arith) in
        let (enc', r', rest, all, stays) =
          seal_each-Sealed tenants (insert t ct enc) r1 shown own (All-drop IsByte 12 r.content hr)
            (omega (arith, length-drop 12 r.content)) in
        (
          enc',
          r',
          rw (seal_each, mine, sealed) rest,
          (stays t (ct, lookup-insert t t ct enc ∙ rw (same_self t) refl, opens), all),
          λ u s. stays u (insert-Sealed t u ct enc opens s),
        )

    open_each_lem :
        (tenants : List Bytes) (enc : Map) (w : World)
        → All (Own keys) tenants
        → All (Sealed enc) tenants
        → open_each c keys enc tenants w
          ≡ (ok tt, record w { printed = w.printed ++ plains plain tenants })
    unfolding open_each plains
    open_each_lem [] enc w own all =
        ap (λ t. (ok tt, record w { printed = t })) (sym (append-nil w.printed))
    open_each_lem (t ∷ tenants) enc w (mine, own) ((ct, found, opens), all) =
        let shown : List Shown = text t ∷ text plain ∷ [] in
        rw (open_each, mine, found, opens)
          (open_each_lem tenants enc (record w { printed = w.printed ++ shown }) own all)
        ∙ ap (λ s. (ok tt, record w { printed = s }))
            (append_assoc w.printed shown (plains plain tenants))

-- For every list of tenants, with 12 bytes in the random source for each, the program ends without
-- an error. Its maps have for every tenant the tenant's own key and a ciphertext that opens with
-- it, and it prints the first bytes of each tenant's own key, then the plaintext for each tenant,
-- and then the error, if it is one, of opening what the maps have for globex with the key that they
-- have for acme.
pub tenants_main-prints :
    (h : Hkdf) (c : Aead) (root plain : Bytes) (tenants : List Bytes) (r : Reader)
    → (hp : IsBytes plain) → IsBytes r.content
    → 12 * length tenants ≤ length r.content
    → (keys enc : Map) × (r' : Reader) × (derive_keys h root tenants []
          (record { random = r; printed = [] })
        ≡ (ok keys, record { random = r; printed = heads h root tenants }))
      × (seal_each c keys plain tenants [] (record { random = r; printed = heads h root tenants })
          ≡ (ok enc, record { random = r'; printed = heads h root tenants }))
      × All (Own h root keys) tenants
      × All (Sealed h root c keys plain hp enc) tenants
      × (tenants_main h c root tenants plain (record { random = r; printed = [] }) ≡ (
        ok tt,
        record {
          random = r';
          printed =
              (heads h root tenants ++ plains plain tenants)
              ++ failures
                  (open_token c (value_at keys (codes "acme")) (value_at enc (codes "globex")) []);
        },
      ))
unfolding tenants_main
tenants_main-prints h c root plain tenants r hp hr enough =
    let (keys, first, own, _) =
      derive_keys_lem h root tenants [] (record { random = r; printed = [] }) in
    let (enc, r', second, all, _) =
      seal_each-Sealed h root c keys plain hp tenants [] r (heads h root tenants) own hr enough in
    let w : World = record { random = r'; printed = heads h root tenants } in
    let key : Bytes = value_at keys (codes "acme") in
    let ct : Bytes = value_at enc (codes "globex") in
    (
      keys,
      enc,
      r',
      first,
      second,
      own,
      all,
      rw (tenants_main, first, second, open_each_lem h root c keys plain hp tenants enc w own all)
          (print_failure_lem (open_token c key ct []) _ (open_token-ne-panic c key [] ct)),
    )
